-- ===== src/Extra/Config/Watched.antt =====
-- Which changes of the settings `set_extra_config` (src/ov_render_tascar.cc) makes without asking for a
-- restart of the session.
use libov.Prelude.{arith, ◌≡◌, refl, sym, ◌∙◌, ap, Bool, true, false, Option, none, some, chosen}
use libov.Real.{RealOps}
use libov.Settings.Differ.{bool_eq}
use libov.Lobby.{JsonApi}
use libov.Lobby.Key.{Name}
use libov.Extra.{Extra, default_extra}
use libov.Extra.Draft.{Draft, Update, done, fails, ◌>>=◌, fetch, update, assign, take_over, section}

pub bool_eq_sound : (a b : Bool) → bool_eq a b ≡ true → a ≡ b
unfolding bool_eq mathlib.Core.Bool.xor
bool_eq_sound true true h = refl
bool_eq_sound false false h = refl
bool_eq_sound true false h = sym h
bool_eq_sound false true h = h

pub no_flag : {P : Type 0} → true ≡ false → P
no_flag h = ground arith

module _ {R : Type 0} (real : RealOps R) where
  -- The settings but those that are taken over while a session runs: the deadline, expedited
  -- forwarding, the head tracking, the delay of the monitor, and the metronome.
  abbrev pub watched : Extra R → Extra R
  watched e =
      let fresh = default_extra real in
      record e {
        sorter_deadline = fresh.sorter_deadline;
        expedited_forwarding_phb = fresh.expedited_forwarding_phb;
        headtrack_tauref = fresh.headtrack_tauref;
        headtrack_eogpath = fresh.headtrack_eogpath;
        headtrack_autorefzonly = fresh.headtrack_autorefzonly;
        selfmonitor_delay = fresh.selfmonitor_delay;
        metronome = fresh.metronome;
      }

  -- Unless a restart is asked for, none was before, and the watched settings are as they were.
  abbrev pub Tells : Draft R → Draft R → Type 0
  Tells d d' =
      d'.restart_session ≡ false
      → (d.restart_session ≡ false) × (watched d.extra ≡ watched d'.extra)

  abbrev pub UpdateTells : Draft R → Update R → Type 0
  UpdateTells d (done d') = Tells d d'
  UpdateTells d (fails d') = Unit

  pub same-Tells : (d : Draft R) → Tells d d
  same-Tells d h = (h, refl)

  onwards : (d d1 : Draft R) (u : Update R) → Tells d d1 → UpdateTells d1 u → UpdateTells d u
  onwards d d1 (fails d2) i j = tt
  onwards d d1 (done d2) i j =
      λ quiet. let later = j quiet in let before = i later.0 in (before.0, before.1 ∙ later.1)

  pub bind-Tells :
      (d : Draft R) (u : Update R) (f : Draft R → Update R)
      → UpdateTells d u
      → ((d' : Draft R) → UpdateTells d' (f d'))
      → UpdateTells d (u >>= f)
  bind-Tells d (fails d1) f i h = tt
  bind-Tells d (done d1) f i h = onwards d d1 (f d1) i (h d1)

  pub fetch-Tells :
      {A : Type 0} (o : Option A) (d : Draft R) (f : A → Update R)
      → ((a : A) → UpdateTells d (f a))
      → UpdateTells d (fetch o d f)
  fetch-Tells none d f h = tt
  fetch-Tells (some a) d f h = h a

  pub update-Tells :
      {A : Type 0} (same : A → A → Bool) (get : Extra R → A) (set : A → Extra R → Extra R)
      (new : Option A) (d : Draft R)
      → UpdateTells d (update same get set new d)
  unfolding update
  update-Tells same get set new d = fetch-Tells new d _ (λ v.
      chosen (λ d'. Tells d d') (same v (get d.extra)) _ _ (λ equal. same-Tells d)
        (λ differs quiet. no_flag quiet))

  pub assign-Tells :
      {A : Type 0} (same : A → A → Bool) (get : Extra R → A) (set : A → Extra R → Extra R)
      (new : Option A) (d : Draft R)
      → ((a b : A) → same a b ≡ true → a ≡ b)
      → ((e : Extra R) → watched e ≡ watched (set (get e) e))
      → UpdateTells d (assign same get set new d)
  unfolding assign
  assign-Tells same get set new d sound back = fetch-Tells new d _ (λ v.
      chosen (λ d'. Tells d d') (same (get d.extra) v) _ _
        (λ equal quiet.
          (quiet, back d.extra ∙ ap (λ w. watched (set w d.extra)) (sound (get d.extra) v equal)))
        (λ differs quiet. no_flag quiet))

  -- A chain that goes on with `update`.
  pub also :
      {A : Type 0} (same : A → A → Bool) (get : Extra R → A) (set : A → Extra R → Extra R)
      (new : Draft R → Option A) (d : Draft R) (u : Update R)
      → UpdateTells d u
      → UpdateTells d (u >>= (λ d'. update same get set (new d') d'))
  also same get set new d u i = bind-Tells d u _ i (λ d'. update-Tells same get set (new d') d')

  pub take_over-Tells :
      {A : Type 0} (set : A → Extra R → Extra R) (new : Option A) (d : Draft R)
      → ((v : A) (e : Extra R) → watched e ≡ watched (set v e))
      → UpdateTells d (take_over set new d)
  unfolding take_over
  take_over-Tells set new d keeps = fetch-Tells new d _ (λ v quiet. (quiet, keeps v d.extra))

module _ {J R : Type 0} (json : JsonApi J R) (real : RealOps R) where
  pub section-Tells :
      (xcfg : J) (k : Name) (d : Draft R) (f : J → Draft R → Update R)
      → ((js : J) (d' : Draft R) → UpdateTells real d' (f js d'))
      → UpdateTells real d (section json real xcfg k d f)
  section-Tells xcfg k d f h = fetch-Tells real (json.member xcfg k) d _ (λ js.
      chosen (UpdateTells real d) (json.is_object js) _ _ (λ object. h js d)
        (λ other. same-Tells real d))
