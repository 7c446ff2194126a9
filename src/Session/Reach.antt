-- ===== src/Session/Reach.antt =====
-- What the session runs with, after any history of calls of the renderer.
use libov.Prelude.{
  chosen, ℕ, ◌+◌, ◌≢◌, ◌≡◌, refl, Bool, true, false, ◌&&◌, none, some, List, [], ◌∷◌, if◌then◌else◌,
  arith,
}
use libov.Real.{RealOps}
use libov.Message.{Bytes}
use libov.Settings.{DeviceChannel, StageDevice}
use libov.Settings.Laws.{IsExact}
use libov.Session.{
  port_gain, in_room, erase_device, Render, Exit, after, find_device, put_device, new_render,
  base_start_session, base_stop_audiobackend, require_session_restart, base_add_stage_device,
  base_set_stage, base_rm_stage_device, base_set_stage_device_gain, with_stage,
}
use libov.Session.Tascar.{
  port_pattern, channel_gain, blank_device, Verdict, runs, unreachable, unreadable, refused, World,
  prepare_session, places_receiver, enter_room, make_session, prepare_session, start_session,
  end_session, restart_session_if_needed, stop_audiobackend, add_stage_device, rm_stage_device,
  set_stage, set_port_gains, set_stage_device_gain, touch_device,
}
use libov.Session.{gain_device}
use libov.Session.Current.{
  Started, IsCurrent, due, idle, start_session-IsCurrent, end_session-IsCurrent, restart-IsCurrent,
  start_audiobackend-IsCurrent, configure-IsCurrent,
}
use libov.Session.History.{
  clear_stage-IsCurrent, set_render_settings-IsCurrent, base_gain-IsCurrent,
  set_relay_server-IsCurrent, set_thisdev-IsCurrent, restart_if-IsCurrent,
}
use libov.Session.Calls.{
  Op, begin_session, finish_session, restart, begin_audio, halt_audio, require, clear, configure,
  thisdev, add, relay, remove, exchange, settings, set_gain, perform, history, IsAimed, AreAimed,
}

module _ {R : Type 0} (real : RealOps R) (to_string : ℕ → Bytes) where
  set_port_gains-IsCurrent :
      (has_port : Bytes → Bool) (id : ℕ) (d : StageDevice R) (k : ℕ) (chs : List (DeviceChannel R))
      (r : Render R)
      → IsCurrent real r
      → IsCurrent real (set_port_gains real to_string has_port id d k chs r)
  set_port_gains-IsCurrent has_port id d k [] r i = i
  set_port_gains-IsCurrent has_port id d k (ch ∷ chs) r i =
      let set = port_gain (port_pattern real to_string r id k) (channel_gain real r id d ch) in
      let here = has_port (port_pattern real to_string r id k) in
      let r' : Render R = record r { calls = if here then set ∷ r.calls else r.calls } in
      set_port_gains-IsCurrent has_port id d (k + 1) chs r' (λ active quiet.
        chosen (λ cs. Started real cs r.stage) here _ _ (λ yes. i active quiet)
          (λ no. i active quiet))

  find_device-gain :
      (id : ℕ) (g : R) (m : List (ℕ × StageDevice R))
      → find_device id (gain_device id g m) ≡ none
      → find_device id m ≡ none
  find_device-gain id g [] e = refl
  find_device-gain id g ((k, d) ∷ m) e = ground (arith, find_device-gain id g m)

  touch_device-IsCurrent :
      (id : ℕ) (r : Render R)
      → find_device id r.stage.stage ≢ none
      → IsCurrent real r
      → IsCurrent real (touch_device real id r)
  unfolding touch_device
  touch_device-IsCurrent id r known i =
      elim (find_device id r.stage.stage)
          as (λ o.
            o ≢ none
            → IsCurrent real (elim o [
              | none ↦ with_stage r (put_device id (blank_device real) r.stage.stage)
              | some d ↦ r
            ])) [ none ↦ λ unknown. absurd (unknown refl) | some d ↦ λ found. i ]
        known

  set_stage_device_gain-IsCurrent :
      (w : World R) (id : ℕ) (g : R) (r : Render R)
      → find_device id r.stage.stage ≢ none
      → IsCurrent real r
      → IsCurrent real (set_stage_device_gain real to_string w id g r)
  unfolding set_stage_device_gain base_set_stage_device_gain
  set_stage_device_gain-IsCurrent w id g r known i =
      let r' = base_set_stage_device_gain id g r in
      let i' : IsCurrent real r' = base_gain-IsCurrent real id g r i in
      let t = touch_device real id r' in
      let i'' : IsCurrent real t =
        touch_device-IsCurrent id r' (λ e. known (find_device-gain id g r.stage.stage e)) i' in
      chosen (IsCurrent real) (r'.session_active && r'.has_tascar) _ _
        (λ both.
          elim (find_device id t.stage.stage)
            as (λ o. IsCurrent real (elim o [
              | none ↦ t
              | some d ↦ set_port_gains real to_string w.has_port id d 0 d.channels t
            ])) [
              | none ↦ i''
              | some d ↦ set_port_gains-IsCurrent w.has_port id d 0 d.channels t i''
            ])
        (λ not_both. i')

-- The session is active, and need not start again.
abbrev pub IsFresh : {R : Type 0} → Render R → Type 0
IsFresh r = (r.session_active ≡ true) × (r.restart_needed ≡ false)

module _ {R : Type 0} (real : RealOps R) where
  abbrev KeptFresh : Exit R → Type 0
  KeptFresh e = IsFresh (after e)

  make_session-IsFresh : (v : Verdict) (r : Render R) → IsFresh r → KeptFresh (make_session v r)
  unfolding make_session
  make_session-IsFresh runs r f = f
  make_session-IsFresh unreachable r f = f
  make_session-IsFresh unreadable r f = f
  make_session-IsFresh refused r f = f

  touch_device-IsFresh : (id : ℕ) (r : Render R) → IsFresh r → IsFresh (touch_device real id r)
  unfolding touch_device
  touch_device-IsFresh id r f =
      elim (find_device id r.stage.stage)
        as (λ o. IsFresh (elim o [
          | none ↦ with_stage r (put_device id (blank_device real) r.stage.stage)
          | some d ↦ r
        ])) [ none ↦ f | some d ↦ f ]

  enter_room-IsFresh : (r : Render R) → IsFresh r → IsFresh (enter_room real r)
  unfolding enter_room
  enter_room-IsFresh r f =
      let listed = touch_device real r.stage.thisstagedeviceid r in
      let f' = touch_device-IsFresh r.stage.thisstagedeviceid r f in
      chosen IsFresh (places_receiver real listed) _ _
        (λ places. touch_device-IsFresh listed.stage.rendersettings.id listed f') (λ no_place. f')

  pub prepare_session-IsFresh : (r : Render R) → IsFresh (prepare_session real r)
  unfolding prepare_session base_start_session
  prepare_session-IsFresh r =
      let begun = base_start_session r in
      chosen IsFresh (in_room begun) _ _ (λ room. enter_room-IsFresh begun (refl, refl))
        (λ alone. (refl, refl))

  start_session-IsFresh : (w : World R) (r : Render R) → IsFresh (after (start_session real w r))
  unfolding start_session
  start_session-IsFresh w r =
      make_session-IsFresh w.verdict (prepare_session real r) (prepare_session-IsFresh r)

  restart-IsFresh :
      (w : World R) (r : Render R) → IsFresh (after (restart_session_if_needed real w r))
  unfolding restart_session_if_needed
  restart-IsFresh w r =
      chosen KeptFresh r.restart_needed _ _
        (λ needed. start_session-IsFresh w (if r.session_active then end_session r else r))
        (λ quiet.
          chosen KeptFresh r.session_active _ _ (λ active. (active, quiet))
            (λ inactive. start_session-IsFresh w r))

module _ {R : Type 0} (real : RealOps R) (exact : IsExact real) (to_string : ℕ → Bytes) where
  perform-IsCurrent :
      (w : World R) (op : Op R) (r : Render R)
      → IsAimed real to_string op r
      → IsCurrent real r
      → IsCurrent real (after (perform real to_string w op r))
  unfolding add_stage_device base_add_stage_device rm_stage_device base_rm_stage_device set_stage
      base_set_stage require_session_restart stop_audiobackend base_stop_audiobackend
  perform-IsCurrent w begin_session r aim i = start_session-IsCurrent real w r
  perform-IsCurrent w finish_session r aim i = end_session-IsCurrent real r
  perform-IsCurrent w restart r aim i = restart-IsCurrent real w r i
  perform-IsCurrent w begin_audio r aim i = start_audiobackend-IsCurrent real w r i
  perform-IsCurrent w halt_audio r aim i = i
  perform-IsCurrent w require r aim i = due real (require_session_restart r) refl
  perform-IsCurrent w clear r aim i = clear_stage-IsCurrent real r
  perform-IsCurrent w (configure a) r aim i = configure-IsCurrent real w a r i
  perform-IsCurrent w (thisdev d) r aim i = set_thisdev-IsCurrent real exact d r i
  perform-IsCurrent w (add d) r aim i =
      restart_if-IsCurrent real exact r (put_device d.id d r.stage.stage) i
  perform-IsCurrent w (relay host port pin) r aim i =
      set_relay_server-IsCurrent real host port pin r i
  perform-IsCurrent w (remove id) r aim i =
      restart_if-IsCurrent real exact r (erase_device id r.stage.stage) i
  perform-IsCurrent w (exchange m) r aim i = restart_if-IsCurrent real exact r m i
  perform-IsCurrent w (settings s id) r aim i = set_render_settings-IsCurrent real s id r i
  perform-IsCurrent w (set_gain id g) r aim i =
      set_stage_device_gain-IsCurrent real to_string w id g r aim i

  history-IsCurrent :
      (h : List (World R × Op R)) (r : Render R)
      → AreAimed real to_string h r
      → IsCurrent real r
      → IsCurrent real (history real to_string h r)
  history-IsCurrent [] r aim i = i
  history-IsCurrent ((w, op) ∷ h) r aim i =
      history-IsCurrent h (after (perform real to_string w op r)) aim.1
        (perform-IsCurrent w op r aim.0 i)

  -- After any history of calls of a renderer, in which a gain is set only for a device in the stage: an
  -- active session that is not marked for a restart was made from the stage in force, but for channel
  -- identifiers and gains.
  pub history_current_lem :
      (deviceid : Bytes) (h : List (World R × Op R))
      → AreAimed real to_string h (new_render real deviceid)
      → (history real to_string h (new_render real deviceid)).session_active ≡ true
      → (history real to_string h (new_render real deviceid)).restart_needed ≡ false
      → Started real
          (history real to_string h (new_render real deviceid)).calls
          (history real to_string h (new_render real deviceid)).stage
  unfolding new_render
  history_current_lem deviceid h aim =
      history-IsCurrent h (new_render real deviceid) aim (idle real (new_render real deviceid) refl)

  -- After any such history, `restart_session_if_needed` leaves, whether it returns or throws, a session
  -- that is active, need not start again, and was made from the stage in force.
  pub restart_begins_lem :
      (deviceid : Bytes) (h : List (World R × Op R)) (w : World R)
      → AreAimed real to_string h (new_render real deviceid)
      → IsFresh (
          after (
            restart_session_if_needed real w (history real to_string h (new_render real deviceid))))
        × Started real
            (after (
              restart_session_if_needed real w
                (history real to_string h (new_render real deviceid)))).calls
            (after (
              restart_session_if_needed real w
                (history real to_string h (new_render real deviceid)))).stage
  unfolding new_render
  restart_begins_lem deviceid h w aim =
      let r = history real to_string h (new_render real deviceid) in
      let fresh = restart-IsFresh real w r in
      (
        fresh,
        restart-IsCurrent real w r
            (history-IsCurrent h (new_render real deviceid) aim
              (idle real (new_render real deviceid) refl))
            fresh.0 fresh.1,
      )
