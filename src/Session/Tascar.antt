-- ===== src/Session/Tascar.antt =====
-- `ov_render_tascar_t` (src/ov_render_tascar.cc): what it adds to the functions of the base class, and
-- the functions of the base class that call it. What lies outside is an argument: whether TASCAR takes
-- the session, whether a JACK server answers, and the rate and period that the server reports.
use libov.Prelude.{
  length, ℕ, ◌+◌, ◌++◌, Bool, true, false, not, ◌&&◌, ◌||◌, Option, none, some, List, [], ◌∷◌, ◌==◌,
  if◌then◌else◌, bytes_eq,
}
use libov.Real.{RealOps}
use libov.Message.{Bytes}
use libov.Settings.{
  AudioDevice, DeviceChannel, StageDevice, RenderSettings, tenth, default_pos, default_rot,
}
use libov.Settings.Differ.{audio_ne, device_ne, settings_ne, stage_ne}
use libov.Session.{
  Render, session_begun, port_gain, Exit, returns, throws, ◌>>=◌, find_device, put_device,
  with_stage, base_start_session, base_end_session, base_start_audiobackend, base_stop_audiobackend,
  require_session_restart, base_add_stage_device, base_set_stage, base_clear_stage,
  base_set_stage_device_gain, base_rm_stage_device, base_set_render_settings, in_room,
}

-- What becomes of a session: it runs; the client cannot be made; TASCAR cannot read the session, or
-- refuses it or cannot start it.
pub data Verdict : Type 0 where
  runs unreachable unreadable refused : Verdict

-- What the world outside answers to a call. `has_port` are the audio ports of the session.
pub record World (R : Type 0) : Type 0 where
  pub verdict : Verdict
  pub has_port : Bytes → Bool
  pub jack_runs : Bool
  pub jack_reports : Option (R × ℕ)

-- "jack" and "manual".
abbrev pub jack_name : Bytes
jack_name = b'j' ∷ b'a' ∷ b'c' ∷ b'k' ∷ []

abbrev pub manual : Bytes
manual = b'm' ∷ b'a' ∷ b'n' ∷ b'u' ∷ b'a' ∷ b'l' ∷ []

module _ {R : Type 0} where
  -- In a room there is a client. Where TASCAR refuses the session, it and the client are deleted.
  unfoldable pub make_session : Verdict → Render R → Exit R
  make_session runs r =
      returns (record r {
        has_tascar = true;
        session_ready = true;
        has_client = in_room r || r.has_client;
      })
  make_session unreachable r = throws r
  make_session unreadable r = throws (record r { has_client = in_room r || r.has_client })
  make_session refused r = throws (record r { has_tascar = false; has_client = false })

  unfoldable pub end_session : Render R → Render R
  end_session r =
      let ended = base_end_session (record r { session_ready = false }) in
      record ended { has_tascar = false; has_client = false }

  -- The rate and the period are those of the server, where one answers.
  abbrev pub reported : Option (R × ℕ) → AudioDevice R → AudioDevice R
  reported none a = a
  reported (some (rate, period)) a = record a { srate = rate; periodsize = period }

  unfoldable pub adopt : World R → Render R → Render R
  adopt w r = record r { audiodevice = reported w.jack_reports r.audiodevice }

  unfoldable pub start_audiobackend : World R → Render R → Exit R
  start_audiobackend w r =
      let begun = base_start_audiobackend r in
      if bytes_eq r.audiodevice.drivername jack_name
        && (not (bytes_eq r.audiodevice.devicename manual) && not w.jack_runs)
      then throws begun
      else returns (adopt w begun)

  unfoldable pub stop_audiobackend : Render R → Render R
  stop_audiobackend r = base_stop_audiobackend r

  -- The session is ended, and is to start again.
  unfoldable pub suspend_session : Render R → Render R
  suspend_session r = if r.session_active then end_session (require_session_restart r) else r

  unfoldable pub set_relay_server : Bytes → ℕ → ℕ → Render R → Render R
  set_relay_server host port pin r =
      let s = r.stage in
      let changed = not (bytes_eq s.host host) || (not (s.port == port) || not (s.pin == pin)) in
      let moved : Render R = record r {
        stage = record s { host = host; port = port; pin = pin };
      } in
      if r.session_active && changed then require_session_restart (end_session moved) else moved

  unfoldable pub clear_stage : Render R → Render R
  clear_stage r = let r' = base_clear_stage r in if r'.session_active then end_session r' else r'

module _ {R : Type 0} (real : RealOps R) where
  -- The value that `operator[]` of a map puts under a new key.
  abbrev pub blank_device : StageDevice R
  blank_device = record {
    id = 0;
    uid = [];
    label = [];
    channels = [];
    position = default_pos real;
    orientation = default_rot real;
    gain = real.of_nat 0;
    mute = false;
    senderjitter = real.of_nat 0;
    receiverjitter = real.of_nat 0;
    sendlocal = false;
    receivedownmix = false;
    senddownmix = false;
    nozita = false;
    hiresping = false;
  }

  -- `stage.stage[id]`.
  unfoldable pub touch_device : ℕ → Render R → Render R
  touch_device id r = elim (find_device id r.stage.stage) [
    | none ↦ with_stage r (put_device id blank_device r.stage.stage)
    | some d ↦ r
  ]

  -- The device sends audio of its own.
  abbrev pub is_sender : Render R → Bool
  is_sender r = elim (find_device r.stage.thisstagedeviceid r.stage.stage) [
    | none ↦ false
    | some d ↦ not (length d.channels == 0) && not d.senddownmix
  ]

  -- In virtual acoustics, the receiver of a sender stands where the entry under `rendersettings.id` is.
  abbrev pub places_receiver : Render R → Bool
  places_receiver r =
      not (r.stage.rendersettings.rawmode || r.stage.thisdevice.receivedownmix)
      && (r.stage.rendersettings.receive && is_sender r)

  -- The entries of the stage that are read with `operator[]`.
  unfoldable pub enter_room : Render R → Render R
  enter_room r =
      let listed = touch_device r.stage.thisstagedeviceid r in
      if places_receiver listed then touch_device listed.stage.rendersettings.id listed else listed

  -- The state in which the session is made.
  unfoldable pub prepare_session : Render R → Render R
  prepare_session r =
      let begun = base_start_session r in
      let made = if in_room begun then enter_room begun else begun in
      record made { calls = session_begun made.stage ∷ made.calls }

  unfoldable pub start_session : World R → Render R → Exit R
  start_session w r = make_session w.verdict (prepare_session r)

  unfoldable pub restart_session_if_needed : World R → Render R → Exit R
  restart_session_if_needed w r =
      if r.restart_needed
      then start_session w (if r.session_active then end_session r else r)
      else if r.session_active
      then returns r
      else start_session w r

  unfoldable pub configure_audio_backend : World R → AudioDevice R → Render R → Exit R
  configure_audio_backend w a r =
      let no_restart = bytes_eq r.audiodevice.devicename manual && bytes_eq a.devicename manual in
      let taken : Render R = record r { audiodevice = a } in
      let stopped =
        if not no_restart && r.audio_active
        then stop_audiobackend (suspend_session taken)
        else taken in
      let started = if no_restart then returns stopped else start_audiobackend w stopped in
      if audio_ne real r.audiodevice a || not r.audio_active
      then started >>= (λ r'. returns (record r' { audio_active = true }))
      else returns r

  unfoldable pub set_thisdev : StageDevice R → Render R → Render R
  set_thisdev d r =
      let r' = if device_ne real d r.stage.thisdevice then require_session_restart r else r in
      let s = r'.stage in record r' { stage = record s { thisdevice = d } }

  -- After a change of the stage: compared with the stage before.
  unfoldable pub restart_if_stage_differs : Render R → Render R → Render R
  restart_if_stage_differs before r =
      if stage_ne real before.stage.stage r.stage.stage && r.session_active
      then require_session_restart r
      else r

  unfoldable pub add_stage_device : StageDevice R → Render R → Render R
  add_stage_device d r = restart_if_stage_differs r (base_add_stage_device d r)

  unfoldable pub rm_stage_device : ℕ → Render R → Render R
  rm_stage_device id r = restart_if_stage_differs r (base_rm_stage_device id r)

  unfoldable pub set_stage : List (ℕ × StageDevice R) → Render R → Render R
  set_stage m r = restart_if_stage_differs r (base_set_stage m r)

  unfoldable pub set_render_settings : RenderSettings R → ℕ → Render R → Render R
  set_render_settings settings id r =
      if settings_ne real settings r.stage.rendersettings || not (id == r.stage.thisstagedeviceid)
      then require_session_restart (base_set_render_settings settings id r)
      else r

  -- The gain of the k-th channel, as it is set at its port.
  abbrev pub channel_gain : Render R → ℕ → StageDevice R → DeviceChannel R → R
  channel_gain r id d ch =
      real.mul (real.mul ch.gain d.gain)
        (if id == r.stage.thisstagedeviceid then r.stage.rendersettings.egogain else tenth real 6)

  -- TASCAR::to_string of numbers.
  module _ (to_string : ℕ → Bytes) where
    unfoldable pub get_stagedev_name : ℕ → Render R → Bytes
    get_stagedev_name id r = elim (find_device id r.stage.stage) [
      | none ↦ []
      | some d ↦ d.label ++ (b'_' ∷ to_string id)
    ]

    abbrev pub port_pattern : Render R → ℕ → ℕ → Bytes
    port_pattern r id k =
        b'/' ∷ (r.stage.thisdeviceid ++ (b'/' ∷ (get_stagedev_name id r ++ (b'/' ∷ to_string k))))

    -- The loop over the channels, from the k-th on.
    abbrev pub set_port_gains :
        (Bytes → Bool) → ℕ → StageDevice R → ℕ → List (DeviceChannel R) → Render R → Render R
    set_port_gains has_port id d k [] r = r
    set_port_gains has_port id d k (ch ∷ chs) r =
        let set = port_gain (port_pattern r id k) (channel_gain r id d ch) in
        set_port_gains has_port id d (k + 1) chs
          (record r { calls = if has_port (port_pattern r id k) then set ∷ r.calls else r.calls })

    unfoldable pub set_stage_device_gain : World R → ℕ → R → Render R → Render R
    set_stage_device_gain w id gain r =
        let r' = base_set_stage_device_gain id gain r in
        if r'.session_active && r'.has_tascar
        then (let t = touch_device id r' in
            elim (find_device id t.stage.stage) [
              | none ↦ t
              | some d ↦ set_port_gains w.has_port id d 0 d.channels t
            ])
        else r'
