-- ===== src/Session.antt =====
-- The session of a renderer: `ov_render_base_t` (src/ov_types.h, src/ov_types.cc). The state has the
-- fields of the class, three of `ov_render_tascar_t` (src/ov_render_tascar.cc) that say what is running, its
-- further settings, the calls that started or ended something, and what was told to what is
-- running, the latest first.
pub mod Tascar
pub mod Calls
pub mod Current
pub mod History
pub mod Reach
pub mod Orderly
pub mod Trace
pub mod Failure
pub mod Backend
mod Tests
use libov.Prelude.{
  ℕ, ◌<◌, Bool, true, false, not, ◌&&◌, ◌||◌, Option, none, some, List, [], ◌∷◌, ltb, ◌==◌,
  if◌then◌else◌, bytes_eq, length,
}
use libov.Real.{RealOps}
use libov.Message.{Bytes}
use libov.Extra.{Extra, Notice, default_extra}
use libov.Settings.{AudioDevice, StageDevice, RenderSettings, Stage, default_stage}

-- What was started or ended, and with what, and the gain of a port that was set.
pub data Call (R : Type 0) : Type 0 where
  session_begun : Stage R → Call R
  session_done : Call R
  port_gain : Bytes → R → Call R
  backend_begun : AudioDevice R → Call R
  backend_done : Call R

pub record Render (R : Type 0) : Type 0 where
  pub audiodevice : AudioDevice R
  pub stage : Stage R
  pub session_active : Bool
  pub audio_active : Bool
  pub restart_needed : Bool
  pub session_ready : Bool
  pub has_tascar : Bool
  pub has_client : Bool
  pub extra : Extra R
  pub notices : List (Notice R)
  pub calls : List (Call R)

-- A call that returns, or throws; what it changed before is changed.
pub data Exit (R : Type 0) : Type 0 where
  returns : Render R → Exit R
  throws : Render R → Exit R

infixl 5 ◌>>=◌
abbrev pub ◌>>=◌ : {R : Type 0} → Exit R → (Render R → Exit R) → Exit R
returns r >>= f = f r
throws r >>= f = throws r

-- The state after the call, whichever way it ended.
abbrev pub after : {R : Type 0} → Exit R → Render R
after (returns r) = r
after (throws r) = r

module _ {R : Type 0} where
  -- A map from devices, by ascending key.
  abbrev pub find_device : ℕ → List (ℕ × StageDevice R) → Option (StageDevice R)
  find_device id [] = none
  find_device id ((k, d) ∷ m) = if k == id then some d else find_device id m

  abbrev pub put_device : ℕ → StageDevice R → List (ℕ × StageDevice R) → List (ℕ × StageDevice R)
  put_device id v [] = (id, v) ∷ []
  put_device id v ((k, d) ∷ m) =
      let rest = put_device id v m in
      if ltb id k then (id, v) ∷ (k, d) ∷ m else if k == id then (id, v) ∷ m else (k, d) ∷ rest

  abbrev pub erase_device : ℕ → List (ℕ × StageDevice R) → List (ℕ × StageDevice R)
  erase_device id [] = []
  erase_device id ((k, d) ∷ m) = if k == id then m else (k, d) ∷ erase_device id m

  -- `m[id].gain = gain`, where there is an entry.
  abbrev pub gain_device : ℕ → R → List (ℕ × StageDevice R) → List (ℕ × StageDevice R)
  gain_device id gain [] = []
  gain_device id gain ((k, d) ∷ m) =
      if k == id then (k, record d { gain = gain }) ∷ m else (k, d) ∷ gain_device id gain m

  abbrev pub with_stage : Render R → List (ℕ × StageDevice R) → Render R
  with_stage r m = let s = r.stage in record r { stage = record s { stage = m } }

  -- The functions of the base class that call no other.
  unfoldable pub base_start_session : Render R → Render R
  base_start_session r = record r { session_active = true; restart_needed = false }

  unfoldable pub base_end_session : Render R → Render R
  base_end_session r = record r { session_active = false; calls = session_done ∷ r.calls }

  unfoldable pub base_start_audiobackend : Render R → Render R
  base_start_audiobackend r = record r {
    audio_active = true;
    calls = backend_begun r.audiodevice ∷ r.calls;
  }

  unfoldable pub base_stop_audiobackend : Render R → Render R
  base_stop_audiobackend r = record r { audio_active = false; calls = backend_done ∷ r.calls }

  unfoldable pub require_session_restart : Render R → Render R
  require_session_restart r = record r { restart_needed = true }

  unfoldable pub base_add_stage_device : StageDevice R → Render R → Render R
  base_add_stage_device d r = with_stage r (put_device d.id d r.stage.stage)

  unfoldable pub base_set_stage : List (ℕ × StageDevice R) → Render R → Render R
  base_set_stage m r = with_stage r m

  unfoldable pub base_clear_stage : Render R → Render R
  base_clear_stage r = with_stage r []

  unfoldable pub base_rm_stage_device : ℕ → Render R → Render R
  base_rm_stage_device id r = with_stage r (erase_device id r.stage.stage)

  unfoldable pub base_set_stage_device_gain : ℕ → R → Render R → Render R
  base_set_stage_device_gain id gain r = with_stage r (gain_device id gain r.stage.stage)

  unfoldable pub base_set_render_settings : RenderSettings R → ℕ → Render R → Render R
  base_set_render_settings settings id r =
      let s = r.stage in
      record r { stage = record s { rendersettings = settings; thisstagedeviceid = id } }

  unfoldable pub in_room : Render R → Bool
  in_room r = not (length r.stage.host == 0)

  unfoldable pub get_num_inputs : Render R → ℕ
  get_num_inputs r = length r.stage.thisdevice.channels

-- The constructors, of the base class and then of `ov_render_tascar_t`.
abbrev pub audio_of : {R : Type 0} → RealOps R → Bytes → Bytes → AudioDevice R
audio_of real driver device = record {
  drivername = driver;
  devicename = device;
  srate = real.of_nat 48000;
  periodsize = 96;
  numperiods = 2;
  priority = 40;
}

unfoldable pub new_render : {R : Type 0} → RealOps R → Bytes → Render R
new_render real deviceid = record {
  audiodevice = audio_of real (b'j' ∷ b'a' ∷ b'c' ∷ b'k' ∷ []) (b'h' ∷ b'w' ∷ b':' ∷ b'1' ∷ []);
  stage = (let s = default_stage real in record s { thisdeviceid = deviceid });
  session_active = false;
  audio_active = false;
  restart_needed = false;
  session_ready = false;
  has_tascar = false;
  has_client = false;
  extra = default_extra real;
  notices = [];
  calls = [];
}
