-- ===== src/Lobby/Parse/Orderly.antt =====
-- Whatever configurations come, the session and the backend are started and ended in order.
use libov.Prelude.{
  ◌%◌, ◌^◌, ◌≡◌, refl, false, ◌&&◌, Option, none, some, List, [], ◌∷◌, if◌then◌else◌, chosen,
}
use libov.Real.{RealOps}
use libov.Message.{Bytes}
use libov.Session.{
  Render, Exit, returns, throws, ◌>>=◌, after, new_render, require_session_restart,
  base_end_session, base_set_stage,
}
use libov.Session.Tascar.{
  World, end_session, stop_audiobackend, start_audiobackend, configure_audio_backend, set_stage,
  restart_session_if_needed,
}
use libov.Session.Orderly.{
  IsOrderly, IsOrdered, KeptOrder, end_session-IsOrdered, stop-IsOrdered,
  start_audiobackend-IsOrdered, configure-IsOrdered,
}
use libov.Session.Trace.{
  set_thisdev-IsOrdered, set_relay_server-IsOrdered, set_render_settings-IsOrdered,
  restart_if-IsOrdered, restart-IsOrdered,
}
use libov.Extra.Draft.{Update, done, fails}
use libov.Extra.Config.{start_draft, finish, set_sections, set_extra_config}
use libov.Lobby.{JsonApi, string_of, bool_of, int_of}
use libov.Lobby.Device.{audio_of_json, get_stage_dev}
use libov.Lobby.Config.{Outside, settings_of_json}
use libov.Lobby.Key
use libov.Lobby.Parse.{
  reads, restart_audio, parse_audio, parse_device, parse_server, parse_settings, parse_extra,
  devices_of, parse_stage, parse_room, parse_end, parse_config,
}

module _ {R : Type 0} where
  reads-KeptOrder :
      {A : Type 0} (o : Option A) (r : Render R) (f : A → Exit R)
      → IsOrdered r
      → ((a : A) → KeptOrder (f a))
      → KeptOrder (reads o r f)
  reads-KeptOrder none r f i h = i
  reads-KeptOrder (some a) r f i h = h a

  bind-KeptOrder :
      (e : Exit R) (f : Render R → Exit R)
      → KeptOrder e
      → ((r : Render R) → IsOrdered r → KeptOrder (f r))
      → KeptOrder (e >>= f)
  bind-KeptOrder (returns r) f i h = h r i
  bind-KeptOrder (throws r) f i h = i

  finish-KeptOrder : (r : Render R) (u : Update R) → IsOrdered r → KeptOrder (finish r u)
  unfolding require_session_restart
  finish-KeptOrder r (fails d) i = i
  finish-KeptOrder r (done d) i =
      chosen IsOrdered (r.session_active && d.restart_session) _ _ (λ asks. i) (λ asks_not. i)

module _ {J R : Type 0} (json : JsonApi J R) (real : RealOps R) (out : Outside J) where
  restart_audio-KeptOrder :
      (w : World R) (r : Render R) → IsOrdered r → KeptOrder (restart_audio json real out w r)
  unfolding restart_audio require_session_restart stop_audiobackend
      libov.Session.base_stop_audiobackend end_session base_end_session
  restart_audio-KeptOrder w r i =
      let ended = if r.session_active then end_session r else r in
      let quiet : ended.session_active ≡ false =
        chosen (λ (s : Render R). s.session_active ≡ false) r.session_active _ _ (λ active. refl)
          (λ inactive. inactive) in
      let orderly : IsOrdered ended =
        chosen IsOrdered r.session_active _ _ (λ active. end_session-IsOrdered r i)
          (λ inactive. i) in
      bind-KeptOrder (start_audiobackend w (stop_audiobackend ended)) _
        (start_audiobackend-IsOrdered w (stop_audiobackend ended) refl
          (stop-IsOrdered ended quiet orderly))
        (λ s o.
          chosen IsOrdered r.session_active (require_session_restart s) s (λ active. o)
            (λ inactive. o))

  parse_audio-KeptOrder :
      (w : World R) (js : J) (r : Render R)
      → IsOrdered r
      → KeptOrder (parse_audio json real out w js r)
  unfolding parse_audio
  parse_audio-KeptOrder w js r i = reads-KeptOrder (audio_of_json json real js) r _ i (λ a.
      bind-KeptOrder (configure_audio_backend real w a r) _ (configure-IsOrdered real w a r i)
        (λ s o. reads-KeptOrder (bool_of json js Key.restart false) s _ o (λ again.
          chosen KeptOrder again _ _ (λ yes_again. restart_audio-KeptOrder w s o) (λ no_more. o))))

  set_extra_config-KeptOrder :
      (xcfg : J) (r : Render R)
      → IsOrdered r
      → KeptOrder (set_extra_config json real out.localip xcfg r)
  unfolding set_extra_config
  set_extra_config-KeptOrder xcfg r =
      finish-KeptOrder r (set_sections json real out.localip r xcfg (start_draft r))

  parse_room-KeptOrder :
      (devcfg js stage : J) (r : Render R)
      → IsOrdered r
      → KeptOrder (parse_room json real out devcfg js stage r)
  unfolding parse_room parse_server parse_settings parse_extra parse_stage require_session_restart
      set_stage base_set_stage
  parse_room-KeptOrder devcfg js stage r i =
      let server = reads-KeptOrder (string_of json stage Key.host []) r _ i (λ host.
        reads-KeptOrder (int_of json stage Key.port 0) r _ i (λ port.
          reads-KeptOrder (int_of json stage Key.pin 0) r _ i
            (λ pin. set_relay_server-IsOrdered real out.to_string host (port % 2 ^ 16) pin r i))) in
      let settings =
        bind-KeptOrder (parse_server json real out stage r) (parse_settings json real out js stage)
          server
          (λ s o. reads-KeptOrder (settings_of_json json real out js stage) s _ o (λ t.
            reads-KeptOrder (int_of json js Key.stagedevid 0) s _ o
              (λ id. set_render_settings-IsOrdered real out.to_string t (id % 2 ^ 8) s o))) in
      let extra =
        bind-KeptOrder
          (parse_server json real out stage r >>= parse_settings json real out js stage)
          (parse_extra json real out js) settings
          (λ s o. reads-KeptOrder (json.member js Key.extracfg) s _ o (λ x.
            chosen KeptOrder (json.is_null x) _ _ (λ no_extra. o)
              (λ some_extra. set_extra_config-KeptOrder x s o))) in
      bind-KeptOrder
        (parse_server json real out stage r
          >>= parse_settings json real out js stage
          >>= parse_extra json real out js)
        (parse_stage json real out devcfg) extra
        (λ s o. reads-KeptOrder (json.member devcfg Key.roomdev) s _ o (λ devs.
          chosen KeptOrder (json.is_array devs) _ _
            (λ array.
              reads-KeptOrder (devices_of json real out (json.elements devs) []) s _ o
                (λ m. restart_if-IsOrdered real out.to_string s (base_set_stage m s) o))
            (λ no_array. o)))

  parse_end-KeptOrder :
      (w : World R) (r : Render R) → IsOrdered r → KeptOrder (parse_end json real out w r)
  unfolding parse_end
  parse_end-KeptOrder w r i =
      bind-KeptOrder (if r.audio_active then returns r else start_audiobackend w r)
        (restart_session_if_needed real w)
        (chosen KeptOrder r.audio_active _ _ (λ active. i)
          (λ inactive. start_audiobackend-IsOrdered w r inactive i))
        (restart-IsOrdered real out.to_string w)

  pub parse_config-KeptOrder :
      (w : World R) (devcfg : J) (r : Render R)
      → IsOrdered r
      → KeptOrder (parse_config json real out w devcfg r)
  unfolding parse_config parse_device
  parse_config-KeptOrder w devcfg r i =
      reads-KeptOrder (json.member devcfg Key.audiocfg) r _ i (λ audio.
        bind-KeptOrder
          (if json.is_null audio then returns r else parse_audio json real out w audio r) _
          (chosen KeptOrder (json.is_null audio) _ _ (λ no_audio. i)
            (λ some_audio. parse_audio-KeptOrder w audio r i))
          (λ r1 i1. reads-KeptOrder (json.member devcfg Key.rendersettings) r1 _ i1 (λ js.
            bind-KeptOrder
              (if json.is_null js then returns r1 else parse_device json real out js r1) _
              (chosen KeptOrder (json.is_null js) _ _ (λ no_device. i1)
                (λ some_device.
                  reads-KeptOrder (get_stage_dev json real out.to_string js) r1 _ i1
                    (λ d. set_thisdev-IsOrdered real out.to_string d r1 i1)))
              (λ r2 i2. reads-KeptOrder (json.member devcfg Key.room) r2 _ i2 (λ stage.
                bind-KeptOrder
                  (if json.is_object stage
                    then parse_room json real out devcfg js stage r2
                    else returns r2)
                  (parse_end json real out w)
                  (chosen KeptOrder (json.is_object stage) _ _
                    (λ room. parse_room-KeptOrder devcfg js stage r2 i2) (λ no_room. i2))
                  (parse_end-KeptOrder w))))))

  -- The configurations in turn, each in a world of its own.
  abbrev pub parse_all : List (World R × J) → Render R → Render R
  parse_all [] r = r
  parse_all ((w, devcfg) ∷ h) r = parse_all h (after (parse_config json real out w devcfg r))

  parse_all-IsOrdered :
      (h : List (World R × J)) (r : Render R) → IsOrdered r → IsOrdered (parse_all h r)
  parse_all-IsOrdered [] r i = i
  parse_all-IsOrdered ((w, devcfg) ∷ h) r i =
      parse_all-IsOrdered h (after (parse_config json real out w devcfg r))
        (parse_config-KeptOrder w devcfg r i)

  -- Whatever configurations a lobby server sends to a new renderer, and whatever fails in them: no session
  -- is begun while another runs, no backend while another runs, none is stopped under a session, and
  -- gains are set only while a session runs.
  pub parse_all-IsOrderly :
      (deviceid : Bytes) (h : List (World R × J))
      → IsOrderly (parse_all h (new_render real deviceid)).calls
  unfolding new_render
  parse_all-IsOrderly deviceid h =
      (parse_all-IsOrdered h (new_render real deviceid) (tt, (refl, λ e. refl))).0
