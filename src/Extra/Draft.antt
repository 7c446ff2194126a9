-- ===== src/Extra/Draft.antt =====
-- One pass of `set_extra_config` (src/ov_render_tascar.cc): the settings as they are by then, what was
-- told to the client and the session, and whether the session has to start again. An exception leaves
-- what was changed before. UPDATEVAR_RESTART is `update_*`, after the type of the field.
use libov.Prelude.{ℕ, Bool, true, Option, none, some, List, ◌==◌, if◌then◌else◌, bytes_eq}
use libov.Real.{RealOps}
use libov.Message.{Bytes}
use libov.Settings.Differ.{bool_eq, list_eq}
use libov.Lobby.{JsonApi, string_of, bool_of, real_of, int_of, ints_of}
use libov.Lobby.Key.{Name}
use libov.Extra.{Extra, Notice}

pub record Draft (R : Type 0) : Type 0 where
  pub extra : Extra R
  pub notices : List (Notice R)
  pub restart_session : Bool

pub data Update (R : Type 0) : Type 0 where
  done : Draft R → Update R
  fails : Draft R → Update R

infixl 5 ◌>>=◌
abbrev pub ◌>>=◌ : {R : Type 0} → Update R → (Draft R → Update R) → Update R
done d >>= f = f d
fails d >>= f = fails d

-- A value that is read goes on, an error leaves the draft.
abbrev pub fetch : {A R : Type 0} → Option A → Draft R → (A → Update R) → Update R
fetch none d f = fails d
fetch (some a) d f = f a

module _ {R : Type 0} where
  abbrev pub with_extra : Draft R → Extra R → Draft R
  with_extra d e = record d { extra = e }

  abbrev pub asks_restart : Draft R → Draft R
  asks_restart d = record d { restart_session = true }

  -- A field takes the new value if it differs, and the session has to start again.
  unfoldable pub update :
      {A : Type 0}
      → (A → A → Bool)
      → (Extra R → A)
      → (A → Extra R → Extra R)
      → Option A
      → Draft R
      → Update R
  update same get set new d =
      fetch new d (λ v.
        done (if same v (get d.extra) then d else asks_restart (with_extra d (set v d.extra))))

  -- A field takes the new value, and the session has to start again if it differs.
  unfoldable pub assign :
      {A : Type 0}
      → (A → A → Bool)
      → (Extra R → A)
      → (A → Extra R → Extra R)
      → Option A
      → Draft R
      → Update R
  assign same get set new d = fetch new d (λ v.
      let changed = with_extra d (set v d.extra) in
      done (if same (get d.extra) v then changed else asks_restart changed))

  -- A field that is read when it is used takes the new value.
  unfoldable pub take_over : {A : Type 0} → (A → Extra R → Extra R) → Option A → Draft R → Update R
  take_over set new d = fetch new d (λ v. done (with_extra d (set v d.extra)))

module _ {J R : Type 0} (json : JsonApi J R) (real : RealOps R) where
  -- `if(xcfg[key].is_object())`: a section of the configuration.
  abbrev pub section : J → Name → Draft R → (J → Draft R → Update R) → Update R
  section xcfg key d f =
      fetch (json.member xcfg key) d (λ js. if json.is_object js then f js d else done d)

  abbrev pub update_bool :
      J → Name → (Extra R → Bool) → (Bool → Extra R → Extra R) → Draft R → Update R
  update_bool js k get set d = update bool_eq get set (bool_of json js k (get d.extra)) d

  abbrev pub update_text :
      J → Name → (Extra R → Bytes) → (Bytes → Extra R → Extra R) → Draft R → Update R
  update_text js k get set d = update bytes_eq get set (string_of json js k (get d.extra)) d

  abbrev pub update_real : J → Name → (Extra R → R) → (R → Extra R → Extra R) → Draft R → Update R
  update_real js k get set d = update real.eq get set (real_of json js k (get d.extra)) d

  abbrev pub update_int : J → Name → (Extra R → ℕ) → (ℕ → Extra R → Extra R) → Draft R → Update R
  update_int js k get set d = update (λ a b. a == b) get set (int_of json js k (get d.extra)) d

  abbrev pub update_ints :
      J → Name → (Extra R → List ℕ) → (List ℕ → Extra R → Extra R) → Draft R → Update R
  update_ints js k get set d =
      update (list_eq (λ a b. a == b)) get set (ints_of json js k (get d.extra)) d
