-- ===== src/Session/Tests.antt =====
-- A renderer in concrete histories of calls; numbers stand for floats.
use libov.Prelude.{
  ℕ, ◌≡◌, ◌≢◌, refl, true, false, none, some, List, [], ◌∷◌, ==_iff, take, sym, ◌∙◌,
}
use libov.Real.{nat_real}
use libov.Settings.{AudioDevice, default_device}
use libov.Settings.Differ.{audio_ne, stage_ne}
use libov.Settings.Laws.{IsExact}
use libov.Session.{
  base_set_stage_device_gain, base_start_audiobackend, base_set_stage, base_end_session,
  base_start_session, base_stop_audiobackend, require_session_restart, Render, after, new_render,
  find_device, in_room,
}
use libov.Session.Tascar.{
  set_relay_server, set_stage_device_gain, restart_if_stage_differs, start_audiobackend, adopt,
  make_session, prepare_session, enter_room, end_session, get_stagedev_name, stop_audiobackend,
  suspend_session, touch_device, runs, refused, World, jack_name, start_session,
  restart_session_if_needed, configure_audio_backend, set_stage,
}
use libov.Session.Calls.{Op, restart, configure, relay, exchange, set_gain, history, AreAimed}
use libov.Session.Current.{Started}
use libov.Session.Reach.{IsFresh, history_current_lem, restart_begins_lem}
use libov.Session.Orderly.{IsOrderly}
use libov.Session.Trace.{history-IsOrderly}
use libov.Session.Failure.{IsAbandoned, start_session-refused, start_session-unlisted}
use libov.Session.Backend.{IsDead, configure-no_jack}

nat-IsExact : IsExact nat_real
nat-IsExact = record { eq_iff = ==_iff }

-- All goes well; JACK runs at 44100 Hz.
abbrev fine : World ℕ
fine = record {
  verdict = runs;
  has_port = λ name. true;
  jack_runs = true;
  jack_reports = some (44100, 96);
}

abbrev broken : World ℕ
broken = record {
  verdict = refused;
  has_port = λ name. false;
  jack_runs = false;
  jack_reports = none;
}

abbrev sound_card : AudioDevice ℕ
sound_card = record {
  drivername = jack_name;
  devicename = 1 ∷ [];
  srate = 48000;
  periodsize = 96;
  numperiods = 2;
  priority = 40;
}

abbrev calls : List (World ℕ × Op ℕ)
calls =
    (fine, configure sound_card)
    ∷ (fine, relay (2 ∷ []) 4464 7)
    ∷ (fine, exchange ((0, default_device nat_real) ∷ []))
    ∷ (fine, restart)
    ∷ (fine, set_gain 0 3)
    ∷ []

abbrev device_id : List ℕ
device_id = 3 ∷ []

abbrev digits : ℕ → List ℕ
digits n = n ∷ []

-- The renderer before the gain is set, and after.
abbrev before : Render ℕ
before = history nat_real digits (take 4 calls) (new_render nat_real device_id)

abbrev played : Render ℕ
played = history nat_real digits calls (new_render nat_real device_id)

before-device : find_device 0 before.stage.stage ≡ some (default_device nat_real)
unfolding set_stage_device_gain base_set_stage_device_gain restart_session_if_needed set_stage
    restart_if_stage_differs stage_ne set_relay_server configure_audio_backend audio_ne new_render
    start_audiobackend adopt base_start_audiobackend base_set_stage start_session make_session
    prepare_session enter_room end_session get_stagedev_name stop_audiobackend suspend_session
    touch_device base_end_session base_start_session base_stop_audiobackend in_room
    require_session_restart
before-device = refl

listed : none ≢ some (default_device nat_real)
listed e = cc

calls-AreAimed : AreAimed nat_real digits calls (new_render nat_real device_id)
calls-AreAimed = (tt, (tt, (tt, (tt, (λ e. listed (sym e ∙ before-device), tt)))))

played_active : played.session_active ≡ true
unfolding set_stage_device_gain base_set_stage_device_gain restart_session_if_needed set_stage
    restart_if_stage_differs stage_ne set_relay_server configure_audio_backend audio_ne new_render
    start_audiobackend adopt base_start_audiobackend base_set_stage start_session make_session
    prepare_session enter_room end_session get_stagedev_name stop_audiobackend suspend_session
    touch_device base_end_session base_start_session base_stop_audiobackend in_room
    require_session_restart
played_active = refl

played_fresh : played.restart_needed ≡ false
unfolding set_stage_device_gain base_set_stage_device_gain restart_session_if_needed set_stage
    restart_if_stage_differs stage_ne set_relay_server configure_audio_backend audio_ne new_render
    start_audiobackend adopt base_start_audiobackend base_set_stage start_session make_session
    prepare_session enter_room end_session get_stagedev_name stop_audiobackend suspend_session
    touch_device base_end_session base_start_session base_stop_audiobackend in_room
    require_session_restart
played_fresh = refl

history_current_example : Started nat_real played.calls played.stage
history_current_example =
    history_current_lem nat_real nat-IsExact digits device_id calls calls-AreAimed played_active
      played_fresh

restart_runs :
    IsFresh (after (restart_session_if_needed nat_real broken played))
    × Started nat_real
        (after (restart_session_if_needed nat_real broken played)).calls
        (after (restart_session_if_needed nat_real broken played)).stage
restart_runs = restart_begins_lem nat_real nat-IsExact digits device_id calls broken calls-AreAimed

history-IsOrderly_example : IsOrderly played.calls
history-IsOrderly_example =
    history-IsOrderly nat_real digits device_id calls (tt, (tt, (tt, (tt, (tt, tt)))))

start_session-refused_example : IsAbandoned nat_real (start_session nat_real broken before)
start_session-refused_example = start_session-refused nat_real broken before refl

-- In a room, with no device in the stage.
abbrev alone : Render ℕ
alone = set_relay_server (2 ∷ []) 4464 7 (new_render nat_real device_id)

unlisted_restarts :
    (set_stage nat_real alone.stage.stage
      (after (start_session nat_real fine alone))).restart_needed
    ≡ true
unfolding in_room set_relay_server new_render
unlisted_restarts = start_session-unlisted nat_real fine alone refl refl

no_jack-IsDead :
    IsDead nat_real sound_card (configure_audio_backend nat_real broken sound_card alone)
unfolding audio_ne set_relay_server new_render
no_jack-IsDead = configure-no_jack nat_real nat-IsExact broken sound_card alone refl refl refl refl
