-- ===== src/Scene/Sources.antt =====
-- The sound sources in `create_virtual_acoustics` and in a session without a room
-- (src/ov_render_tascar.cc).
use libov.Prelude.{
  ℕ, ◌+◌, Bool, not, ◌&&◌, ◌||◌, List, [], ◌∷◌, ◌++◌, if◌then◌else◌, ◌==◌, length, bytes_eq, codes,
}
use libov.Real.{RealOps}
use libov.Message.{Bytes}
use libov.Settings.{Pos, ZyxEuler, DeviceChannel, StageDevice, tenth}
use libov.Session.{Render}
use libov.Session.Tascar.{get_stagedev_name}
use libov.Scene.{
  Build, Done, ◌>>=◌, ◌>>◌, return, add_child, attr, say, put_text, when, loop, Numbers, this_entry,
  decibel_f,
}
use libov.Scene.Ports.{get_channel_source}

module _ {R : Type 0} (real : RealOps R) (num : Numbers R) (r : Render R) where
  abbrev pub this_id : ℕ
  this_id = (this_entry real r).id

  abbrev pub is_this : StageDevice R → Bool
  is_this d = d.id == this_id

  -- This device sends audio of its own.
  abbrev pub b_sender : Bool
  b_sender = let d = this_entry real r in not (length d.channels == 0) && not d.senddownmix

  -- A device with channels has a sound source: another one that does not send a downmix, or this
  -- one if it is a sender.
  unfoldable pub has_source : StageDevice R → Bool
  has_source d =
      not (length d.channels == 0)
      && ((b_sender || not (is_this d)) && (not d.senddownmix || is_this d))

  -- The gain of a channel: of the channel, of the device, and of the monitor for this one. The gain of
  -- another device is lowered where there is no distance law.
  unfoldable pub sound_gain : StageDevice R → DeviceChannel R → R
  sound_gain d ch =
      let s = r.stage.rendersettings in
      let gain = real.mul ch.gain d.gain in
      if is_this d
      then (if real.eq s.egogain (real.of_nat 0) then gain else real.mul gain s.egogain)
      else if s.distancelaw
      then gain
      else real.mul gain (tenth real 6)

  abbrev pub put_position : ℕ → Pos R → Build Done
  put_position e_snd p = do
    attr e_snd "x" (num.text p.x)
    attr e_snd "y" (num.text p.y)
    attr e_snd "z" (num.text p.z)

  abbrev pub put_directivity : ℕ → DeviceChannel R → Build Done
  put_directivity e_snd ch = do
    when (bytes_eq ch.directivity (codes "omni")) (say e_snd "type" "omni")
    when (bytes_eq ch.directivity (codes "cardioid")) (say e_snd "type" "cardioidmod")

  -- The name under which the metronome is connected to a channel of this device: the k-th has its
  -- number, from 0, if it has no name.
  abbrev pub ego_name : ℕ → DeviceChannel R → Bytes
  ego_name k ch =
      codes "ego." ++ (if length ch.name == 0 then num.nat_text k else ch.name) ++ codes ".0"

  abbrev pub add_sound : ℕ → StageDevice R → ℕ → DeviceChannel R → Build Done
  add_sound e_src d k ch =
      let s = r.stage.rendersettings in
      let e = r.extra in
      do
        e_snd ← add_child e_src "sound"
        say e_snd "maxdist" "50"
        when (not s.distancelaw) (say e_snd "gainmodel" "1")
        attr e_snd "id" ch.id
        when (is_this d && (e.selfmonitor_active && not e.useloudspeaker))
            (attr e_snd "connect" (codes "'" ++ get_channel_source ch ++ codes "'"))
        when (is_this d && real.eq s.egogain (real.of_nat 0)) (say e_snd "mute" "true")
        attr e_snd "gain" (decibel_f real num (sound_gain d ch))
        put_position e_snd ch.position
        when (not (length ch.name == 0)) (attr e_snd "name" ch.name)
        put_directivity e_snd ch
        when (is_this d && e.selfmonitor_onlyreverb) (say e_snd "layers" "2")
        when (is_this d && real.lt (real.of_nat 0) e.selfmonitor_delay) (do
          e_plugs ← add_child e_snd "plugins"
          e_delay ← add_child e_plugs "delay"
          attr e_delay "delay" (
              num.text
                (real.mul e.selfmonitor_delay (real.div (real.of_nat 1) (real.of_nat 1000)))))

  -- The sounds from the k-th on; for this device, `ego_source_names` grows.
  abbrev pub add_sounds :
      ℕ → StageDevice R → ℕ → List (DeviceChannel R) → List Bytes → Build (List Bytes)
  add_sounds e_src d k [] names = return names
  add_sounds e_src d k (ch ∷ chs) names =
      add_sound e_src d k ch
      >> add_sounds e_src d (k + 1) chs (if is_this d then names ++ (ego_name k ch ∷ []) else names)

  -- Where this device is no sender, the others stand on an arc, each `daz` further.
  abbrev pub placed : R → StageDevice R → Pos R × ZyxEuler R
  placed az d =
      let radius = real.div (real.of_nat 12) (real.of_nat 10) in
      let zero_r = real.of_nat 0 in
      if b_sender then (d.position, d.orientation) else (
        record {
          x = real.mul radius (num.cos az);
          y = real.mul (real.mul real.neg_one radius) (num.sin az);
          z = zero_r;
        },
        record {
          z = real.mul num.rad2deg (real.add (real.mul real.neg_one az) num.pi);
          y = zero_r;
          x = zero_r;
        },
      )

  abbrev pub add_source : ℕ → R → StageDevice R → List Bytes → Build (List Bytes)
  add_source e_scene az d names =
      let (pos, rot) = placed az d in
      do
        e_src ← add_child e_scene "source"
        attr e_src "name"
            (if is_this d then codes "ego" else get_stagedev_name real num.nat_text d.id r)
        attr e_src "dlocation" (num.pos_text pos)
        e_rot ← add_child e_src "orientation"
        put_text e_rot (codes "0 " ++ num.euler_text rot)
        add_sounds e_src d 0 d.channels names

  -- The loop over the stage, with the angle and the names of the sources of this device.
  unfoldable pub add_sources :
      ℕ → R → List (ℕ × StageDevice R) → R × List Bytes → Build (R × List Bytes)
  add_sources e_scene daz m s = loop m s (λ (id, d) (az, names).
      let az' = if b_sender then az else real.add az daz in
      if has_source d
      then (add_source e_scene az' d names >>= (λ names'. return (az', names')))
      else return (az, names))

  -- Without a room, the device may hear itself.
  abbrev pub monitor_gain : DeviceChannel R → R
  monitor_gain ch =
      let g = r.stage.rendersettings.egogain in
      if real.eq g (real.of_nat 0) then ch.gain else real.mul ch.gain g

  abbrev pub add_monitor_sound : ℕ → DeviceChannel R → Build Done
  add_monitor_sound e_src ch =
      let s = r.stage.rendersettings in
      do
        e_snd ← add_child e_src "sound"
        say e_snd "maxdist" "50"
        when (not s.distancelaw) (say e_snd "gainmodel" "1")
        attr e_snd "id" ch.id
        attr e_snd "connect" (codes "'" ++ get_channel_source ch ++ codes "'")
        when (real.eq s.egogain (real.of_nat 0)) (say e_snd "mute" "true")
        attr e_snd "gain" (decibel_f real num (monitor_gain ch))
        put_position e_snd ch.position
        when (not (length ch.name == 0)) (attr e_snd "name" ch.name)
        put_directivity e_snd ch
        when r.extra.selfmonitor_onlyreverb (say e_snd "layers" "2")
