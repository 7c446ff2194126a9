-- ===== src/Session/Trace.antt =====
-- Whole histories of calls keep the session and the backend in order.
use libov.Prelude.{
  chosen, ℕ, ◌+◌, ◌≡◌, ◌∙◌, refl, Bool, true, false, not, ◌&&◌, ◌||◌, none, some, List, [], ◌∷◌,
  ◌==◌, if◌then◌else◌, bytes_eq, arith,
}
use libov.Real.{RealOps}
use libov.Message.{Bytes}
use libov.Settings.{DeviceChannel, StageDevice, RenderSettings}
use libov.Settings.Differ.{device_ne, settings_ne, stage_ne}
use libov.Session.{
  port_gain, Render, after, find_device, new_render, base_end_session, require_session_restart,
  base_add_stage_device, base_set_stage, base_clear_stage, base_rm_stage_device,
  base_set_stage_device_gain, base_set_render_settings,
}
use libov.Session.Tascar.{
  port_pattern, channel_gain, World, end_session, restart_session_if_needed, set_thisdev,
  set_relay_server, restart_if_stage_differs, add_stage_device, rm_stage_device, set_stage,
  clear_stage, set_render_settings, set_port_gains, set_stage_device_gain, touch_device,
}
use libov.Session.Calls.{
  Op, begin_session, finish_session, restart, begin_audio, halt_audio, require, clear, configure,
  thisdev, add, relay, remove, exchange, settings, set_gain, perform, history,
}
use libov.Session.Orderly.{
  IsOrderly, Agree, IsOrdered, KeptOrder, end_session-IsOrdered, stop-IsOrdered,
  start_audiobackend-IsOrdered, configure-IsOrdered, start_session-IsOrdered, touch_device-keeps,
}

module _ {R : Type 0} (real : RealOps R) (to_string : ℕ → Bytes) where
  -- A session is begun outright only where none is active, a backend only where none is, and a backend
  -- is stopped only where no session is active.
  abbrev pub IsPolite : Op R → Render R → Type 0
  IsPolite begin_session r = r.session_active ≡ false
  IsPolite finish_session r = Unit
  IsPolite restart r = Unit
  IsPolite begin_audio r = r.audio_active ≡ false
  IsPolite halt_audio r = r.session_active ≡ false
  IsPolite require r = Unit
  IsPolite clear r = Unit
  IsPolite (configure a) r = Unit
  IsPolite (thisdev d) r = Unit
  IsPolite (add d) r = Unit
  IsPolite (relay host port pin) r = Unit
  IsPolite (remove id) r = Unit
  IsPolite (exchange m) r = Unit
  IsPolite (settings s id) r = Unit
  IsPolite (set_gain id g) r = Unit

  abbrev pub ArePolite : List (World R × Op R) → Render R → Type 0
  ArePolite [] r = Unit
  ArePolite ((w, op) ∷ h) r = IsPolite op r × ArePolite h (after (perform real to_string w op r))

  pub restart-IsOrdered :
      (w : World R) (r : Render R) → IsOrdered r → KeptOrder (restart_session_if_needed real w r)
  unfolding restart_session_if_needed end_session base_end_session
  restart-IsOrdered w r o =
      let ended = if r.session_active then end_session r else r in
      let quiet : ended.session_active ≡ false =
        chosen (λ (s : Render R). s.session_active ≡ false) r.session_active _ _ (λ active. refl)
          (λ inactive. inactive) in
      let orderly : IsOrdered ended =
        chosen IsOrdered r.session_active _ _ (λ active. end_session-IsOrdered r o)
          (λ inactive. o) in
      chosen KeptOrder r.restart_needed _ _
        (λ needed. start_session-IsOrdered real w ended quiet orderly)
        (λ well.
          chosen KeptOrder r.session_active _ _ (λ active. o)
            (λ inactive. start_session-IsOrdered real w r inactive o))

  pub set_thisdev-IsOrdered :
      (d : StageDevice R) (r : Render R) → IsOrdered r → IsOrdered (set_thisdev real d r)
  unfolding set_thisdev require_session_restart
  set_thisdev-IsOrdered d r o =
      chosen (λ (s : Render R). IsOrdered s) (device_ne real d r.stage.thisdevice)
        (require_session_restart r) r (λ changed. o) (λ unchanged. o)

  pub set_relay_server-IsOrdered :
      (host : Bytes) (port pin : ℕ) (r : Render R)
      → IsOrdered r
      → IsOrdered (set_relay_server host port pin r)
  unfolding set_relay_server require_session_restart
  set_relay_server-IsOrdered host port pin r o =
      let s = r.stage in
      let changed = not (bytes_eq s.host host) || (not (s.port == port) || not (s.pin == pin)) in
      let moved : Render R = record r {
        stage = record s { host = host; port = port; pin = pin };
      } in
      chosen IsOrdered (r.session_active && changed) _ _ (λ ends. end_session-IsOrdered moved o)
        (λ stays. o)

  pub restart_if-IsOrdered :
      (r r' : Render R) → IsOrdered r' → IsOrdered (restart_if_stage_differs real r r')
  unfolding restart_if_stage_differs require_session_restart
  restart_if-IsOrdered r r' o =
      chosen IsOrdered (stage_ne real r.stage.stage r'.stage.stage && r'.session_active) _ _
        (λ changed. o) (λ unchanged. o)

  clear_stage-IsOrdered : (r : Render R) → IsOrdered r → IsOrdered (clear_stage r)
  unfolding clear_stage base_clear_stage
  clear_stage-IsOrdered r o =
      chosen IsOrdered r.session_active _ _ (λ active. end_session-IsOrdered (base_clear_stage r) o)
        (λ inactive. o)

  pub set_render_settings-IsOrdered :
      (s : RenderSettings R) (id : ℕ) (r : Render R)
      → IsOrdered r
      → IsOrdered (set_render_settings real s id r)
  unfolding set_render_settings require_session_restart base_set_render_settings
  set_render_settings-IsOrdered s id r o =
      chosen IsOrdered
        (settings_ne real s r.stage.rendersettings || not (id == r.stage.thisstagedeviceid)) _ _
        (λ changed. o) (λ unchanged. o)

  set_port_gains-IsOrdered :
      (has_port : Bytes → Bool) (id : ℕ) (d : StageDevice R) (k : ℕ) (chs : List (DeviceChannel R))
      (r : Render R)
      → r.session_active ≡ true
      → IsOrdered r
      → IsOrdered (set_port_gains real to_string has_port id d k chs r)
  set_port_gains-IsOrdered has_port id d k [] r active o = o
  set_port_gains-IsOrdered has_port id d k (ch ∷ chs) r active o =
      let set = port_gain (port_pattern real to_string r id k) (channel_gain real r id d ch) in
      let here = has_port (port_pattern real to_string r id k) in
      let r' : Render R = record r { calls = if here then set ∷ r.calls else r.calls } in
      set_port_gains-IsOrdered has_port id d (k + 1) chs r' active (
        chosen (λ cs. Agree cs r.session_active r.audio_active) here _ _
          (λ yes. ((o.1.0 ∙ active, o.0), o.1)) (λ no. o))

  set_stage_device_gain-IsOrdered :
      (w : World R) (id : ℕ) (g : R) (r : Render R)
      → IsOrdered r
      → IsOrdered (set_stage_device_gain real to_string w id g r)
  unfolding set_stage_device_gain base_set_stage_device_gain
  set_stage_device_gain-IsOrdered w id g r o =
      let r' = base_set_stage_device_gain id g r in
      let t = touch_device real id r' in
      let o' : IsOrdered t = touch_device-keeps real Agree id r' o in
      chosen IsOrdered (r'.session_active && r'.has_tascar) _ _
        (λ both.
          let active : t.session_active ≡ true =
            touch_device-keeps real (λ cs s a. s ≡ true) id r' (ground (arith, both)) in
          elim (find_device id t.stage.stage)
            as (λ e. IsOrdered (elim e [
              | none ↦ t
              | some d ↦ set_port_gains real to_string w.has_port id d 0 d.channels t
            ])) [
              | none ↦ o'
              | some d ↦ set_port_gains-IsOrdered w.has_port id d 0 d.channels t active o'
            ])
        (λ not_both. o)

  perform-IsOrdered :
      (w : World R) (op : Op R) (r : Render R)
      → IsPolite op r
      → IsOrdered r
      → IsOrdered (after (perform real to_string w op r))
  unfolding add_stage_device base_add_stage_device rm_stage_device base_rm_stage_device set_stage
      base_set_stage require_session_restart
  perform-IsOrdered w begin_session r polite o = start_session-IsOrdered real w r polite o
  perform-IsOrdered w finish_session r polite o = end_session-IsOrdered r o
  perform-IsOrdered w restart r polite o = restart-IsOrdered w r o
  perform-IsOrdered w begin_audio r polite o = start_audiobackend-IsOrdered w r polite o
  perform-IsOrdered w halt_audio r polite o = stop-IsOrdered r polite o
  perform-IsOrdered w require r polite o = o
  perform-IsOrdered w clear r polite o = clear_stage-IsOrdered r o
  perform-IsOrdered w (configure a) r polite o = configure-IsOrdered real w a r o
  perform-IsOrdered w (thisdev d) r polite o = set_thisdev-IsOrdered d r o
  perform-IsOrdered w (add d) r polite o = restart_if-IsOrdered r (base_add_stage_device d r) o
  perform-IsOrdered w (relay host port pin) r polite o =
      set_relay_server-IsOrdered host port pin r o
  perform-IsOrdered w (remove id) r polite o = restart_if-IsOrdered r (base_rm_stage_device id r) o
  perform-IsOrdered w (exchange m) r polite o = restart_if-IsOrdered r (base_set_stage m r) o
  perform-IsOrdered w (settings s id) r polite o = set_render_settings-IsOrdered s id r o
  perform-IsOrdered w (set_gain id g) r polite o = set_stage_device_gain-IsOrdered w id g r o

  history-IsOrdered :
      (h : List (World R × Op R)) (r : Render R)
      → ArePolite h r
      → IsOrdered r
      → IsOrdered (history real to_string h r)
  history-IsOrdered [] r polite o = o
  history-IsOrdered ((w, op) ∷ h) r polite o =
      history-IsOrdered h (after (perform real to_string w op r)) polite.1
        (perform-IsOrdered w op r polite.0 o)

  -- Whatever the history of polite calls, and whatever fails in it, the calls that come of it are in
  -- order: no session is begun while another runs, no backend while another runs, none is stopped under
  -- a session, and gains are set only while a session runs.
  pub history-IsOrderly :
      (deviceid : Bytes) (h : List (World R × Op R))
      → ArePolite h (new_render real deviceid)
      → IsOrderly (history real to_string h (new_render real deviceid)).calls
  unfolding new_render
  history-IsOrderly deviceid h polite =
      (history-IsOrdered h (new_render real deviceid) polite (tt, (refl, λ e. refl))).0
