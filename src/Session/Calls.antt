-- ===== src/Session/Calls.antt =====
-- Calls of the renderer (src/ov_types.h, src/ov_render_tascar.h) in any order.
use libov.Prelude.{ℕ, ◌≢◌, none, List, [], ◌∷◌}
use libov.Real.{RealOps}
use libov.Message.{Bytes}
use libov.Settings.{AudioDevice, StageDevice, RenderSettings}
use libov.Session.{Render, Exit, returns, after, find_device, require_session_restart}
use libov.Session.Tascar.{
  World, start_session, end_session, restart_session_if_needed, start_audiobackend,
  stop_audiobackend, configure_audio_backend, set_thisdev, set_relay_server, add_stage_device,
  rm_stage_device, set_stage, clear_stage, set_render_settings, set_stage_device_gain,
}

-- A call of the renderer, by the lobby client or the program.
pub data Op (R : Type 0) : Type 0 where
  begin_session finish_session restart begin_audio halt_audio require clear : Op R
  configure : AudioDevice R → Op R
  thisdev add : StageDevice R → Op R
  relay : Bytes → ℕ → ℕ → Op R
  remove : ℕ → Op R
  exchange : List (ℕ × StageDevice R) → Op R
  settings : RenderSettings R → ℕ → Op R
  set_gain : ℕ → R → Op R

module _ {R : Type 0} (real : RealOps R) (to_string : ℕ → Bytes) where
  abbrev pub perform : World R → Op R → Render R → Exit R
  perform w begin_session r = start_session real w r
  perform w finish_session r = returns (end_session r)
  perform w restart r = restart_session_if_needed real w r
  perform w begin_audio r = start_audiobackend w r
  perform w halt_audio r = returns (stop_audiobackend r)
  perform w require r = returns (require_session_restart r)
  perform w clear r = returns (clear_stage r)
  perform w (configure a) r = configure_audio_backend real w a r
  perform w (thisdev d) r = returns (set_thisdev real d r)
  perform w (add d) r = returns (add_stage_device real d r)
  perform w (relay host port pin) r = returns (set_relay_server host port pin r)
  perform w (remove id) r = returns (rm_stage_device real id r)
  perform w (exchange m) r = returns (set_stage real m r)
  perform w (settings s id) r = returns (set_render_settings real s id r)
  perform w (set_gain id g) r = returns (set_stage_device_gain real to_string w id g r)

  -- The calls in turn; an exception is caught by the caller, who goes on.
  abbrev pub history : List (World R × Op R) → Render R → Render R
  history [] r = r
  history ((w, op) ∷ h) r = history h (after (perform w op r))

  -- Where a call sets the gain of a device, the device is in the stage.
  abbrev pub IsAimed : Op R → Render R → Type 0
  IsAimed begin_session r = Unit
  IsAimed finish_session r = Unit
  IsAimed restart r = Unit
  IsAimed begin_audio r = Unit
  IsAimed halt_audio r = Unit
  IsAimed require r = Unit
  IsAimed clear r = Unit
  IsAimed (configure a) r = Unit
  IsAimed (thisdev d) r = Unit
  IsAimed (add d) r = Unit
  IsAimed (relay host port pin) r = Unit
  IsAimed (remove id) r = Unit
  IsAimed (exchange m) r = Unit
  IsAimed (settings s id) r = Unit
  IsAimed (set_gain id g) r = find_device id r.stage.stage ≢ none

  abbrev pub AreAimed : List (World R × Op R) → Render R → Type 0
  AreAimed [] r = Unit
  AreAimed ((w, op) ∷ h) r = IsAimed op r × AreAimed h (after (perform w op r))
