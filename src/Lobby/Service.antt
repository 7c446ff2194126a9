-- ===== src/Lobby/Service.antt =====
-- The thread of the client of the lobby server (src/ov_client_orlandoviols.cc): `service`, with
-- `report_error` and the whole of `parse_config`. What the server answers is an argument of each turn.
pub mod Kept
pub mod Stopped
use libov.Prelude.{
  ℕ, Bool, true, false, not, ◌&&◌, ◌||◌, Option, none, some, List, [], ◌∷◌, ◌==◌, if◌then◌else◌,
  length, bytes_eq, codes,
}
use libov.Real.{RealOps}
use libov.Message.{Bytes}
use libov.Session.{Render, Exit, returns, throws, new_render}
use libov.Session.Tascar.{World, end_session, stop_audiobackend}
use libov.Lobby.{JsonApi, bool_of}
use libov.Lobby.Key
use libov.Lobby.Answer.{device_answer}
use libov.Lobby.Config.{Outside}
use libov.Lobby.Head.{LobbyClient, Ends, goes, fails, ◌>>=◌, fetch, write_file, parse_head}
use libov.Lobby.Merge.{JsonTree, json_merge}
use libov.Lobby.Parse.{parse_config, config_report}

-- What one turn meets: the answer of the server, empty where there is none, the world around the
-- renderer, the message of an exception, and whether that and an error about an ambient sound can be
-- reported.
pub record Turn (R : Type 0) : Type 0 where
  pub answer : Bytes
  pub world : World R
  pub message : Bytes
  pub reports : Bool
  pub ambient_reports : Bool

-- The start of the service: an exception ends the program, the server cannot be reached, or it runs.
pub data Begin (J R : Type 0) : Type 0 where
  crashes : Begin J R
  gives_up : LobbyClient J R → Begin J R
  begins : LobbyClient J R → Begin J R

module _ {J R : Type 0} (json : JsonApi J R) (tree : JsonTree J) (dump : J → Bytes)
    (parse : Bytes → Option J) (real : RealOps R) (out : Outside J) where
  -- A message is sent once in a row.
  unfoldable pub report_error : Bool → Bytes → LobbyClient J R → LobbyClient J R
  report_error sent msg c =
      if bytes_eq msg c.lasterrmsg || not sent then c else record c { lasterrmsg = msg }

  abbrev pub put_render : LobbyClient J R → Exit R → Ends J R
  put_render c (returns r) = goes (record c { render = r })
  put_render c (throws r) = fails (record c { render = r })

  -- An ambient sound that cannot be fetched is reported in the middle of `parse_config`.
  abbrev pub told_ambient : Turn R → LobbyClient J R → Option Bytes → LobbyClient J R
  told_ambient t c none = c
  told_ambient t c (some msg) = report_error t.ambient_reports msg c

  -- A renderer with a session has no error any more.
  unfoldable pub parse_all_config : Turn R → LobbyClient J R → Ends J R
  parse_all_config t c = parse_head json dump c >>= (λ c.
      if c.quitrequest
      then goes c
      else (put_render (told_ambient t c (config_report json real out t.world c.devcfg c.render))
            (parse_config json real out t.world c.devcfg c.render)
          >>= (λ c. goes (if c.render.session_active then report_error t.reports [] c else c))))

  -- A new configuration goes over the one that is there.
  abbrev pub merge_config : Bytes → LobbyClient J R → Ends J R
  merge_config stagecfg c =
      if length stagecfg == 0
      then goes c
      else fetch (parse stagecfg) c
          (λ js. fetch (json_merge json tree c.devcfg js) c (λ m. goes (record c { devcfg = m })))

  -- An exception is reported.
  abbrev pub caught : Turn R → Ends J R → LobbyClient J R
  caught t (goes c) = c
  caught t (fails c) = report_error t.reports t.message c

  -- One turn of the loop. The hash code is kept before the configuration is read.
  abbrev pub answered : Turn R → LobbyClient J R → Option (Bytes × Bytes) → LobbyClient J R
  answered t c none = c
  answered t c (some (hash, stagecfg)) =
      caught t (merge_config stagecfg (record c { hash = hash }) >>= parse_all_config t)

  unfoldable pub turn : Turn R → LobbyClient J R → LobbyClient J R
  turn t c = answered t c (device_answer c.hash t.answer)

  abbrev pub service_loop : List (Turn R) → LobbyClient J R → LobbyClient J R
  service_loop [] c = c
  service_loop (t ∷ ts) c = service_loop ts (turn t c)

  unfoldable pub service_end : LobbyClient J R → LobbyClient J R
  service_end c =
      let r = c.render in
      let ended = if r.session_active then end_session r else r in
      record c { render = stop_audiobackend ended }

  -- The configuration files, each of them passed over where it cannot be read.
  abbrev pub kept : LobbyClient J R → Ends J R → LobbyClient J R
  kept c (goes c') = c'
  kept c (fails c') = c

  abbrev pub read_files : List Bytes → LobbyClient J R → LobbyClient J R
  read_files [] c = c
  read_files (file ∷ files) c = read_files files (kept c (merge_config file c))

  -- The first configuration is saved.
  abbrev pub save_config : Bytes → LobbyClient J R → Ends J R
  save_config stagecfg c = goes (
      if length stagecfg == 0
      then c
      else write_file json dump (codes "ovboxcfg.json") (dump c.devcfg) c)

  -- Nothing catches an exception of the first update.
  -- The message on the server is reset, and an announcement fetched.
  abbrev pub reach : Bool → Bool → LobbyClient J R → Option Bool → Begin J R
  reach reports downloads c none = crashes
  reach reports downloads c (some alone) =
      let told = report_error reports [] (record c { standalone_mixer = alone }) in
      let reachable = (bytes_eq [] c.lasterrmsg || reports) && downloads in
      if reachable || alone then begins told else gives_up (record told { quitrequest = true })

  abbrev pub begin_with : Bool → Bool → Ends J R → Begin J R
  begin_with reports downloads (fails c) = crashes
  begin_with reports downloads (goes c) =
      reach reports downloads c (bool_of json c.devcfg Key.standalonemixer false)

  abbrev pub first_answered : Bool → Bool → LobbyClient J R → Option (Bytes × Bytes) → Begin J R
  first_answered reports downloads c none = crashes
  first_answered reports downloads c (some (hash, stagecfg)) =
      begin_with reports downloads
        (merge_config stagecfg (record c { hash = hash }) >>= save_config stagecfg)

  unfoldable pub service_begin : List Bytes → Bytes → Bool → Bool → LobbyClient J R → Begin J R
  service_begin files answer reports downloads c =
      let local = read_files files c in
      first_answered reports downloads local (device_answer local.hash answer)

  -- The whole service, if it begins.
  abbrev pub serve : List (Turn R) → Begin J R → Option (LobbyClient J R)
  serve ts crashes = none
  serve ts (gives_up c) = some c
  serve ts (begins c) = some (service_end (service_loop ts c))

  -- A client with a new renderer; no configuration is null.
  abbrev pub new_client : J → Bytes → LobbyClient J R
  new_client null deviceid = record {
    devcfg = null;
    quitrequest = false;
    standalone_mixer = false;
    owner = [];
    hash = [];
    lasterrmsg = codes "xxx";
    files = [];
    render = new_render real deviceid;
  }
