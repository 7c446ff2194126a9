-- ===== src/Lobby/Service/Stopped.antt =====
-- Whatever the lobby server sends, the service leaves nothing running behind it, and starts and ends
-- things in order (src/ov_client_orlandoviols.cc).
use libov.Prelude.{
  ◌≡◌, refl, Bool, false, true, not, ◌||◌, ◌&&◌, Option, none, some, List, [], ◌∷◌, ◌==◌,
  if◌then◌else◌, length, bytes_eq, chosen,
}
use libov.Real.{RealOps}
use libov.Message.{Bytes}
use libov.Session.{
  Render, Exit, returns, throws, new_render, base_end_session, base_stop_audiobackend,
}
use libov.Session.Tascar.{end_session, stop_audiobackend}
use libov.Session.Orderly.{IsOrderly, IsOrdered, KeptOrder, end_session-IsOrdered, stop-IsOrdered}
use libov.Lobby.{JsonApi, bool_of}
use libov.Lobby.Key
use libov.Lobby.Key.{Name}
use libov.Lobby.Answer.{device_answer}
use libov.Lobby.Config.{Outside}
use libov.Lobby.Parse.{parse_config, config_report}
use libov.Lobby.Parse.Orderly.{parse_config-KeptOrder}
use libov.Lobby.Head.{LobbyClient, Ends, goes, fails, ◌>>=◌, parse_head}
use libov.Lobby.Service.Kept.{Holds, bind-Holds, fetch-Holds, either_holds, parse_head-Holds}
use libov.Lobby.Merge.{JsonTree, json_merge}
use libov.Lobby.Service.{
  Turn, Begin, report_error, told_ambient, put_render, parse_all_config, merge_config, caught,
  answered, turn, service_loop, service_end, kept, reach, first_answered, new_client, read_files,
  save_config, begin_with, begins, gives_up, service_begin, serve,
}

module _ {J R : Type 0} (json : JsonApi J R) (tree : JsonTree J) (dump : J → Bytes)
    (parse : Bytes → Option J) (real : RealOps R) (out : Outside J) where
  abbrev Ordered : LobbyClient J R → Type 0
  Ordered c = IsOrdered c.render

  report_error-Ordered :
      (sent : Bool) (msg : Bytes) (c : LobbyClient J R)
      → Ordered c
      → Ordered (report_error json tree dump parse real out sent msg c)
  unfolding report_error
  report_error-Ordered sent msg c i =
      either_holds IsOrdered (bytes_eq msg c.lasterrmsg || not sent) c
        (record c { lasterrmsg = msg }) i i

  parse_all_config-Ordered :
      (t : Turn R) (c : LobbyClient J R)
      → Ordered c
      → Holds IsOrdered (parse_all_config json tree dump parse real out t c)
  unfolding parse_all_config report_error
  parse_all_config-Ordered t c i =
      bind-Holds IsOrdered (parse_head json dump c) _ (parse_head-Holds json dump IsOrdered c i)
        (λ c i.
          chosen (Holds IsOrdered) c.quitrequest _ _ (λ quits. i)
            (λ stays.
              bind-Holds IsOrdered
                (put_render json tree dump parse real out
                  (told_ambient json tree dump parse real out t c
                    (config_report json real out t.world c.devcfg c.render))
                  (parse_config json real out t.world c.devcfg c.render))
                _
                (rendered
                  (told_ambient json tree dump parse real out t c
                    (config_report json real out t.world c.devcfg c.render))
                  (parse_config json real out t.world c.devcfg c.render)
                  (parse_config-KeptOrder json real out t.world c.devcfg c.render i))
                (λ c i.
                  either_holds IsOrdered c.render.session_active _ _
                    (either_holds IsOrdered _ _ _ i i) i)))
    where
      rendered :
          (c : LobbyClient J R) (e : Exit R)
          → KeptOrder e
          → Holds IsOrdered (put_render json tree dump parse real out c e)
      rendered c (returns r) h = h
      rendered c (throws r) h = h

  merge_config-Ordered :
      (P : Render R → Type 0) (stagecfg : Bytes) (c : LobbyClient J R)
      → P c.render
      → Holds P (merge_config json tree dump parse real out stagecfg c)
  merge_config-Ordered P stagecfg c i =
      chosen (Holds P) (length stagecfg == 0) _ _ (λ nothing. i)
        (λ some_text.
          fetch-Holds P (parse stagecfg) c _ i
            (λ js. fetch-Holds P (json_merge json tree c.devcfg js) c _ i (λ m. i)))

  turn-Ordered :
      (t : Turn R) (c : LobbyClient J R)
      → Ordered c
      → Ordered (turn json tree dump parse real out t c)
  unfolding turn
  turn-Ordered t c i = after_answer (device_answer c.hash t.answer)
    where
      handled :
          (e : Ends J R) → Holds IsOrdered e → Ordered (caught json tree dump parse real out t e)
      handled (goes c) h = h
      handled (fails c) h = report_error-Ordered t.reports t.message c h

      after_answer :
          (o : Option (Bytes × Bytes)) → Ordered (answered json tree dump parse real out t c o)
      after_answer none = i
      after_answer (some (hash, stagecfg)) =
          handled
            (merge_config json tree dump parse real out stagecfg (record c { hash = hash })
              >>= parse_all_config json tree dump parse real out t)
            (bind-Holds IsOrdered
              (merge_config json tree dump parse real out stagecfg (record c { hash = hash }))
              (parse_all_config json tree dump parse real out t)
              (merge_config-Ordered IsOrdered stagecfg (record c { hash = hash }) i)
              (parse_all_config-Ordered t))

  service_loop-Ordered :
      (ts : List (Turn R)) (c : LobbyClient J R)
      → Ordered c
      → Ordered (service_loop json tree dump parse real out ts c)
  service_loop-Ordered [] c i = i
  service_loop-Ordered (t ∷ ts) c i =
      service_loop-Ordered ts (turn json tree dump parse real out t c) (turn-Ordered t c i)

  -- Nothing runs, and what was started and ended was so in order.
  abbrev pub IsStopped : LobbyClient J R → Type 0
  IsStopped c =
      IsOrderly c.render.calls
      × ((c.render.session_active ≡ false) × (c.render.audio_active ≡ false))

  service_end-IsStopped :
      (c : LobbyClient J R) → Ordered c → IsStopped (service_end json tree dump parse real out c)
  unfolding service_end stop_audiobackend base_stop_audiobackend end_session base_end_session
  service_end-IsStopped c i =
      let r = c.render in
      let ended = if r.session_active then end_session r else r in
      let quiet : ended.session_active ≡ false =
        chosen (λ (s : Render R). s.session_active ≡ false) r.session_active _ _ (λ active. refl)
          (λ inactive. inactive) in
      let orderly : IsOrdered ended =
        chosen IsOrdered r.session_active _ _ (λ active. end_session-IsOrdered r i)
          (λ inactive. i) in
      ((stop-IsOrdered ended quiet orderly).0, (quiet, refl))

  -- What holds of the client after the service, if the program is still there.
  abbrev pub Left : (LobbyClient J R → Type 0) → Option (LobbyClient J R) → Type 0
  Left P none = Unit
  Left P (some c) = P c

  -- A renderer in which nothing runs yet.
  abbrev Idle : Render R → Type 0
  Idle r = IsOrdered r × ((r.session_active ≡ false) × (r.audio_active ≡ false))

  read_files-Idle :
      (files : List Bytes) (c : LobbyClient J R)
      → Idle c.render
      → Idle (read_files json tree dump parse real out files c).render
  read_files-Idle [] c i = i
  read_files-Idle (file ∷ files) c i =
      read_files-Idle files
        (kept json tree dump parse real out c (merge_config json tree dump parse real out file c))
        (kept-Idle (merge_config json tree dump parse real out file c)
          (merge_config-Ordered Idle file c i))
    where
      kept-Idle :
          (e : Ends J R) → Holds Idle e → Idle (kept json tree dump parse real out c e).render
      kept-Idle (goes c') h = h
      kept-Idle (fails c') h = i

  module _ (ts : List (Turn R)) (reports downloads : Bool) where
    reach-IsStopped :
        (c : LobbyClient J R) (o : Option Bool)
        → Idle c.render
        → Left IsStopped (
            serve json tree dump parse real out ts
              (reach json tree dump parse real out reports downloads c o))
    unfolding report_error
    reach-IsStopped c none i = tt
    reach-IsStopped c (some alone) i =
        let set : LobbyClient J R = record c { standalone_mixer = alone } in
        let told = report_error json tree dump parse real out reports [] set in
        let idle : Idle told.render =
          either_holds Idle (bytes_eq [] c.lasterrmsg || not reports) set
            (record set { lasterrmsg = [] }) i i in
        chosen (λ (b : Begin J R). Left IsStopped (serve json tree dump parse real out ts b))
          (((bytes_eq [] c.lasterrmsg || reports) && downloads) || alone) (begins told)
          (gives_up (record told { quitrequest = true }))
          (λ works. service_end-IsStopped _ (service_loop-Ordered ts told idle.0))
          (λ fails_to. (idle.0.0, idle.1))

    begin-IsStopped :
        (e : Ends J R)
        → Holds Idle e
        → Left IsStopped (
            serve json tree dump parse real out ts
              (begin_with json tree dump parse real out reports downloads e))
    begin-IsStopped (fails c) i = tt
    begin-IsStopped (goes c) i =
        reach-IsStopped c (bool_of json c.devcfg Key.standalonemixer false) i

    first-IsStopped :
        (c : LobbyClient J R) (o : Option (Bytes × Bytes))
        → Idle c.render
        → Left IsStopped (
            serve json tree dump parse real out ts
              (first_answered json tree dump parse real out reports downloads c o))
    first-IsStopped c none i = tt
    first-IsStopped c (some (hash, stagecfg)) i =
        begin-IsStopped
          (merge_config json tree dump parse real out stagecfg (record c { hash = hash })
            >>= save_config json tree dump parse real out stagecfg)
          (bind-Holds Idle
            (merge_config json tree dump parse real out stagecfg (record c { hash = hash }))
            (save_config json tree dump parse real out stagecfg)
            (merge_config-Ordered Idle stagecfg (record c { hash = hash }) i)
            (λ c i. either_holds Idle _ _ _ i i))

    -- Whatever configuration files there are and whatever the lobby server answers, first and in each turn,
    -- and whatever fails: unless an exception of the first update ends the program, the service leaves
    -- no session and no backend running, and no session was begun while another ran, no backend while
    -- another ran, none was stopped under a session, and gains were set only while a session ran.
    pub serve-IsStopped :
        (null : J) (deviceid : Bytes) (files : List Bytes) (answer : Bytes)
        → Left IsStopped (
            serve json tree dump parse real out ts (
              service_begin json tree dump parse real out files answer reports downloads
                (new_client json tree dump parse real out null deviceid)))
    unfolding service_begin new_render
    serve-IsStopped null deviceid files answer =
        let start = new_client json tree dump parse real out null deviceid in
        let local = read_files json tree dump parse real out files start in
        first-IsStopped local (device_answer local.hash answer)
          (read_files-Idle files start ((tt, (refl, λ e. refl)), (refl, refl)))
