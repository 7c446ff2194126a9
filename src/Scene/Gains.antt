-- ===== src/Scene/Gains.antt =====
-- The gain of a channel when the session is made, and when it is set later (src/ov_render_tascar.cc).
use libov.Prelude.{ℕ, ◌≡◌, false, not, ◌&&◌, ◌==◌, if◌then◌else◌, arith}
use libov.Real.{RealOps}
use libov.Settings.{DeviceChannel, StageDevice, tenth}
use libov.Session.{Render}
use libov.Session.Tascar.{channel_gain}
use libov.Scene.{Numbers}
use libov.Scene.Sources.{is_this, sound_gain}

module _ {R : Type 0} (real : RealOps R) (num : Numbers R) where
  -- For a device that counts as this one in both functions or in neither, and a gain of the monitor that
  -- is not 0: the gain that set_stage_device_gain gives a channel is that of its sound in a new session,
  -- but for a device other than this one under a distance law, where it is lowered by 0.6.
  pub channel_gain-sound_gain :
      (r : Render R) (id : ℕ) (d : StageDevice R) (ch : DeviceChannel R)
      → is_this real num r d ≡ (id == r.stage.thisstagedeviceid)
      → real.eq r.stage.rendersettings.egogain (real.of_nat 0) ≡ false
      → channel_gain real r id d ch ≡ (
          if not (is_this real num r d) && r.stage.rendersettings.distancelaw
          then real.mul (sound_gain real num r d ch) (tenth real 6)
          else sound_gain real num r d ch)
  unfolding sound_gain
  channel_gain-sound_gain r id d ch same audible = ground arith
