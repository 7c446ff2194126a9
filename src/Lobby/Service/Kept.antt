-- ===== src/Lobby/Service/Kept.antt =====
-- The first part of `parse_config` (src/ov_client_orlandoviols.cc) leaves the renderer as it is.
use libov.Prelude.{Bool, true, false, Option, none, some, [], if◌then◌else◌, chosen}
use libov.Message.{Bytes}
use libov.Session.{Render}
use libov.Lobby.{JsonApi, string_of, bool_of}
use libov.Lobby.Key
use libov.Lobby.Key.{Name}
use libov.Lobby.Head.{
  LobbyClient, Ends, goes, fails, ◌>>=◌, fetch, set_mixer, set_owner, set_frontend, set_flag,
  set_hifiberry, set_wifi, parse_head,
}

module _ {J R : Type 0} where
  -- What holds of the renderer, whichever way a call ended.
  abbrev pub Holds : (Render R → Type 0) → Ends J R → Type 0
  Holds P (goes c) = P c.render
  Holds P (fails c) = P c.render

  module _ (P : Render R → Type 0) where
    pub bind-Holds :
        (e : Ends J R) (f : LobbyClient J R → Ends J R)
        → Holds P e
        → ((c : LobbyClient J R) → P c.render → Holds P (f c))
        → Holds P (e >>= f)
    bind-Holds (goes c) f p h = h c p
    bind-Holds (fails c) f p h = p

    pub fetch-Holds :
        {A : Type 0} (o : Option A) (c : LobbyClient J R) (f : A → Ends J R)
        → P c.render
        → ((a : A) → Holds P (f a))
        → Holds P (fetch o c f)
    fetch-Holds none c f p h = p
    fetch-Holds (some a) c f p h = h a

    -- A test between two states with the same renderer.
    pub either_holds :
        (b : Bool) (x y : LobbyClient J R) → P x.render → P y.render → P (if b then x else y).render
    either_holds true x y p q = p
    either_holds false x y p q = q

module _ {J R : Type 0} (json : JsonApi J R) (dump : J → Bytes) where
  module _ (P : Render R → Type 0) where
    set_flag-Holds :
        (k : Name) (name : Bytes) (c : LobbyClient J R)
        → P c.render
        → Holds P (set_flag json dump k name c)
    unfolding set_flag
    set_flag-Holds k name c p =
        fetch-Holds P (bool_of json c.devcfg k false) c _ p (λ v. either_holds P v _ _ p p)

    set_wifi-Holds : (c : LobbyClient J R) → P c.render → Holds P (set_wifi json dump c)
    unfolding set_wifi
    set_wifi-Holds c p = fetch-Holds P (json.member c.devcfg Key.wifisettings) c _ p (λ js.
        chosen (Holds P) (json.is_object js) _ _
          (λ object.
            fetch-Holds P (string_of json js Key.ssid []) _ _ p
              (λ ssid. fetch-Holds P (string_of json js Key.passwd []) _ _ p (λ passwd. p)))
          (λ other. p))

    set_mixer-Holds : (c : LobbyClient J R) → P c.render → Holds P (set_mixer json dump c)
    unfolding set_mixer
    set_mixer-Holds c p =
        fetch-Holds P (bool_of json c.devcfg Key.standalonemixer false) c _ p
          (λ v. either_holds P _ _ _ p p)

    set_owner-Holds : (c : LobbyClient J R) → P c.render → Holds P (set_owner json dump c)
    unfolding set_owner
    set_owner-Holds c p =
        fetch-Holds P (string_of json c.devcfg Key.owner c.owner) c _ p
          (λ v. either_holds P _ _ _ p p)

    set_frontend-Holds : (c : LobbyClient J R) → P c.render → Holds P (set_frontend json dump c)
    unfolding set_frontend
    set_frontend-Holds c p =
        fetch-Holds P (json.member c.devcfg Key.frontendconfig) c _ p
          (λ v. either_holds P _ _ _ p p)

    set_hifiberry-Holds : (c : LobbyClient J R) → P c.render → Holds P (set_hifiberry json dump c)
    unfolding set_hifiberry
    set_hifiberry-Holds c p =
        fetch-Holds P (string_of json c.devcfg Key.usehifiberry []) c _ p
          (λ v. either_holds P _ _ _ p p)

    pub parse_head-Holds : (c : LobbyClient J R) → P c.render → Holds P (parse_head json dump c)
    unfolding parse_head
    parse_head-Holds c p =
        bind-Holds P _ _
          (bind-Holds P _ _
            (bind-Holds P _ _
              (bind-Holds P _ _
                (bind-Holds P _ _
                  (bind-Holds P _ _
                    (bind-Holds P _ _
                      (bind-Holds P (set_mixer json dump c) _ (set_mixer-Holds c p) set_owner-Holds)
                      set_frontend-Holds)
                    (λ c p. set_flag-Holds Key.firmwareupdate _ c p))
                  (λ c p. set_flag-Holds Key.firmwareupdategit _ c p))
                (λ c p. set_flag-Holds Key.usedevversion _ c p))
              (λ c p. set_flag-Holds Key.installopenmha _ c p))
            set_hifiberry-Holds)
          set_wifi-Holds
