-- ===== src/Lobby/Parse.antt =====
-- `parse_config` (src/ov_client_orlandoviols.cc), from the audio configuration on: what the
-- configuration of a device makes the renderer do. An exception leaves the renderer as it is by then.
pub mod Orderly
use libov.Prelude.{
  ℕ, ◌%◌, ◌^◌, Bool, true, false, not, ◌&&◌, Option, none, some, List, [], ◌∷◌, if◌then◌else◌,
}
use libov.Real.{RealOps}
use libov.Message.{Bytes}
use libov.Settings.{AudioDevice, StageDevice}
use libov.Session.{Render, Exit, returns, throws, ◌>>=◌, put_device, require_session_restart}
use libov.Session.Tascar.{
  World, end_session, stop_audiobackend, start_audiobackend, configure_audio_backend, set_thisdev,
  set_relay_server, set_render_settings, set_stage, restart_session_if_needed,
}
use libov.Extra.Config.{set_extra_config}
use libov.Lobby.{JsonApi, string_of, bool_of, int_of}
use libov.Lobby.Device.{audio_of_json, get_stage_dev}
use libov.Lobby.Config.{Outside, settings_of_json, ambient_error}
use libov.Lobby.Key

-- A value that is read goes on, an error throws.
abbrev pub reads : {A R : Type 0} → Option A → Render R → (A → Exit R) → Exit R
reads none r f = throws r
reads (some a) r f = f a

module _ {J R : Type 0} (json : JsonApi J R) (real : RealOps R) (out : Outside J) where
  -- The audio backend is stopped and started, and with it an active session.
  unfoldable pub restart_audio : World R → Render R → Exit R
  restart_audio w r =
      let ended = if r.session_active then end_session r else r in
      start_audiobackend w (stop_audiobackend ended)
      >>= (λ s. returns (if r.session_active then require_session_restart s else s))

  unfoldable pub parse_audio : World R → J → Render R → Exit R
  parse_audio w js r = reads (audio_of_json json real js) r (λ a.
      configure_audio_backend real w a r >>= (λ s.
        reads (bool_of json js Key.restart false) s
          (λ again. if again then restart_audio w s else returns s)))

  unfoldable pub parse_device : J → Render R → Exit R
  parse_device js r =
      reads (get_stage_dev json real out.to_string js) r (λ d. returns (set_thisdev real d r))

  unfoldable pub parse_server : J → Render R → Exit R
  parse_server stage r = reads (string_of json stage Key.host []) r (λ host.
      reads (int_of json stage Key.port 0) r (λ port.
        reads (int_of json stage Key.pin 0) r
          (λ pin. returns (set_relay_server host (port % 2 ^ 16) pin r))))

  unfoldable pub parse_settings : J → J → Render R → Exit R
  parse_settings js stage r = reads (settings_of_json json real out js stage) r (λ s.
      reads (int_of json js Key.stagedevid 0) r
        (λ id. returns (set_render_settings real s (id % 2 ^ 8) r)))

  unfoldable pub parse_extra : J → Render R → Exit R
  parse_extra js r = reads (json.member js Key.extracfg) r (λ extra.
      if json.is_null extra then returns r else set_extra_config json real out.localip extra r)

  -- The devices of the room, by ascending identifier.
  abbrev pub devices_of : List J → List (ℕ × StageDevice R) → Option (List (ℕ × StageDevice R))
  devices_of [] m = some m
  devices_of (dev ∷ js) m = elim (get_stage_dev json real out.to_string dev) [
    | none ↦ none
    | some d ↦ devices_of js (put_device d.id d m)
  ]

  unfoldable pub parse_stage : J → Render R → Exit R
  parse_stage devcfg r = reads (json.member devcfg Key.roomdev) r (λ devs.
      if json.is_array devs
      then reads (devices_of (json.elements devs) []) r (λ m. returns (set_stage real m r))
      else returns r)

  unfoldable pub parse_room : J → J → J → Render R → Exit R
  parse_room devcfg js stage r =
      parse_server stage r >>= parse_settings js stage >>= parse_extra js >>= parse_stage devcfg

  -- The audio backend and the session are started where they are not.
  unfoldable pub parse_end : World R → Render R → Exit R
  parse_end w r =
      (if r.audio_active then returns r else start_audiobackend w r)
      >>= restart_session_if_needed real w

  unfoldable pub parse_config : World R → J → Render R → Exit R
  parse_config w devcfg r = reads (json.member devcfg Key.audiocfg) r (λ audio.
      (if json.is_null audio then returns r else parse_audio w audio r) >>= (λ r1.
        reads (json.member devcfg Key.rendersettings) r1 (λ js.
          (if json.is_null js then returns r1 else parse_device js r1) >>= (λ r2.
            reads (json.member devcfg Key.room) r2 (λ stage.
              (if json.is_object stage then parse_room devcfg js stage r2 else returns r2)
              >>= parse_end w)))))

  -- What is said about a state that a call returns.
  abbrev pub then_says : {A R : Type 0} → Exit R → (Render R → Option A) → Option A
  then_says (returns r) f = f r
  then_says (throws r) f = none

  abbrev pub read_says : {A B : Type 0} → Option A → (A → Option B) → Option B
  read_says none f = none
  read_says (some a) f = f a

  -- The message that `parse_config` reports on its way, if it comes to fetch an ambient sound and
  -- cannot. Nothing that it does afterwards depends on the message.
  unfoldable pub config_report : World R → J → Render R → Option Bytes
  config_report w devcfg r = read_says (json.member devcfg Key.audiocfg) (λ audio.
      then_says (if json.is_null audio then returns r else parse_audio w audio r) (λ r1.
        read_says (json.member devcfg Key.rendersettings) (λ js.
          then_says (if json.is_null js then returns r1 else parse_device js r1) (λ r2.
            read_says (json.member devcfg Key.room) (λ stage.
              if json.is_object stage
              then then_says (parse_server stage r2) (λ r3. ambient_error json real out js stage)
              else none)))))
