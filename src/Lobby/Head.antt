-- ===== src/Lobby/Head.antt =====
-- The client of the lobby server, and the first part of `parse_config`
-- (src/ov_client_orlandoviols.cc): what asks the program to quit, with the files that say what to do then.
use libov.Prelude.{
  Bool, true, false, Option, none, some, List, [], ◌∷◌, ◌++◌, ◌==◌, if◌then◌else◌, length, bytes_eq,
  codes,
}
use libov.Message.{Bytes}
use libov.Settings.Differ.{bool_eq}
use libov.Session.{Render}
use libov.Lobby.{JsonApi, string_of, bool_of}
use libov.Lobby.Key
use libov.Lobby.Key.{Name}

-- The state, with the files that were written, the latest first.
pub record LobbyClient (J R : Type 0) : Type 0 where
  pub devcfg : J
  pub quitrequest : Bool
  pub standalone_mixer : Bool
  pub owner : Bytes
  pub hash : Bytes
  pub lasterrmsg : Bytes
  pub files : List (Bytes × Bytes)
  pub render : Render R

-- A call that returns, or throws.
pub data Ends (J R : Type 0) : Type 0 where
  goes : LobbyClient J R → Ends J R
  fails : LobbyClient J R → Ends J R

infixl 5 ◌>>=◌
abbrev pub ◌>>=◌ : {J R : Type 0} → Ends J R → (LobbyClient J R → Ends J R) → Ends J R
goes c >>= f = f c
fails c >>= f = fails c

abbrev pub fetch : {A J R : Type 0} → Option A → LobbyClient J R → (A → Ends J R) → Ends J R
fetch none c f = fails c
fetch (some a) c f = f a

module _ {J R : Type 0} (json : JsonApi J R) (dump : J → Bytes) where
  abbrev pub write_file : Bytes → Bytes → LobbyClient J R → LobbyClient J R
  write_file name content c = record c { files = (name, content) ∷ c.files }

  abbrev pub quit : LobbyClient J R → LobbyClient J R
  quit c = record c { quitrequest = true }

  unfoldable pub set_mixer : LobbyClient J R → Ends J R
  set_mixer c = fetch (bool_of json c.devcfg Key.standalonemixer false) c (λ v.
      goes (if bool_eq v c.standalone_mixer then c else quit (record c { standalone_mixer = v })))

  unfoldable pub set_owner : LobbyClient J R → Ends J R
  set_owner c =
      fetch (string_of json c.devcfg Key.owner c.owner) c
        (λ v. goes (if bytes_eq v c.owner then c else record c { owner = v }))

  unfoldable pub set_frontend : LobbyClient J R → Ends J R
  set_frontend c = fetch (json.member c.devcfg Key.frontendconfig) c (λ v. goes (
      if json.is_null v
      then c
      else quit (
          write_file (codes "ovboxcfg.json") (codes "{}")
            (write_file (codes "ov-client.cfg") (dump v) c))))

  -- A flag that leaves an empty file.
  unfoldable pub set_flag : Name → Bytes → LobbyClient J R → Ends J R
  set_flag k name c =
      fetch (bool_of json c.devcfg k false) c
        (λ v. goes (if v then quit (write_file name [] c) else c))

  unfoldable pub set_hifiberry : LobbyClient J R → Ends J R
  set_hifiberry c = fetch (string_of json c.devcfg Key.usehifiberry []) c (λ v. goes (
      if length v == 0
      then c
      else quit (write_file (codes "ov-client.hifiberry") (v ++ 10 ∷ []) c)))

  -- The file is there, and empty, before its content is read.
  unfoldable pub set_wifi : LobbyClient J R → Ends J R
  set_wifi c = fetch (json.member c.devcfg Key.wifisettings) c (λ js.
      let opened = write_file (codes "ov-client.wificfg") [] c in
      if json.is_object js
      then fetch (string_of json js Key.ssid []) opened (λ ssid.
        fetch (string_of json js Key.passwd []) opened (λ passwd.
          goes
            (quit (write_file (codes "ov-client.wificfg") (ssid ++ 10 ∷ (passwd ++ 10 ∷ [])) c))))
      else goes c)

  unfoldable pub parse_head : LobbyClient J R → Ends J R
  parse_head c =
      set_mixer c
      >>= set_owner
      >>= set_frontend
      >>= set_flag Key.firmwareupdate (codes "ov-client.firmwareupdate")
      >>= set_flag Key.firmwareupdategit (codes "ov-client.firmwareupdategit")
      >>= set_flag Key.usedevversion (codes "ov-client.usedevversion")
      >>= set_flag Key.installopenmha (codes "ov-client.installopenmha")
      >>= set_hifiberry
      >>= set_wifi
