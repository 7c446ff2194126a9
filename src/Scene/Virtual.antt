-- ===== src/Scene/Virtual.antt =====
-- `create_virtual_acoustics` and `create_raw_dev` (src/ov_render_tascar.cc): the room with the devices in it,
-- or plain routes.
use libov.Prelude.{
  ℕ, Bool, true, not, ◌&&◌, none, some, List, [], ◌++◌, if◌then◌else◌, ◌==◌, length, codes,
}
use libov.Real.{RealOps}
use libov.Message.{Bytes}
use libov.Settings.{StageDevice}
use libov.Session.{Render, find_device}
use libov.Session.Tascar.{blank_device}
use libov.Scene.{
  Build, Done, ◌>>=◌, ◌>>◌, return, add_child, attr, say, put_text, when, loop, Numbers, Setup,
  session_add_connect, session_add_waitforjackports, this_entry, decibel,
}
use libov.Scene.Net.{add_network_receiver}
use libov.Scene.Rack.{calibrates, add_spkcalib, configure_simplefdn}
use libov.Scene.Sources.{b_sender, add_sources}
use libov.Scene.Senders.{
  add_delayed_self, add_own_audio, add_downmix, add_sender, connect_raw_senders,
}
use libov.Scene.Head.{add_headtracking, add_echo_canceller}

module _ {R : Type 0} (real : RealOps R) (num : Numbers R) (setup : Setup) (r : Render R) where
  -- `stage.stage[stage.rendersettings.id]`, which is in the stage.
  abbrev pub listener_entry : StageDevice R
  listener_entry = elim (find_device r.stage.rendersettings.id r.stage.stage) [
    | none ↦ blank_device real
    | some d ↦ d
  ]

  abbrev pub place_receiver : ℕ → Build Done
  place_receiver e_rec = do
    e_pos ← add_child e_rec "position"
    put_text e_pos (codes "0 " ++ num.pos_text listener_entry.position)
    e_rot ← add_child e_rec "orientation"
    put_text e_rot (codes "0 " ++ num.euler_text listener_entry.orientation)

  -- The angle between two devices, and the angle before the first.
  abbrev pub daz : R
  daz =
      let others = real.of_nat (length r.stage.stage) in
      let width = real.of_nat 160 in
      let count = if b_sender real num r then others else real.sub others (real.of_nat 1) in
      real.mul (real.div width count) num.deg2rad

  abbrev pub first_az : R
  first_az =
      let half = real.div (real.of_nat 1) (real.of_nat 2) in
      real.sub (real.mul (real.mul real.neg_one (real.mul half (real.of_nat 160))) num.deg2rad)
        (real.mul half daz)

  unfoldable pub add_room : ℕ → Build Done
  add_room e_scene =
      let s = r.stage.rendersettings in
      do
        when s.renderism (do
          e_rvb ← add_child e_scene "facegroup"
          say e_rvb "name" "room"
          attr e_rvb "shoebox" (num.pos_text s.roomsize)
          attr e_rvb "reflectivity" (num.text (num.sqrt (real.sub (real.of_nat 1) s.absorption)))
          attr e_rvb "damping" (num.text s.damping))
        when s.renderreverb (do
          e_rvb ← configure_simplefdn real num r e_scene
          when (length r.stage.thisdevice.channels == 0)
              (say e_rvb "volumetricgainwithdistance" "true"))

  unfoldable pub add_ambient : ℕ → Build Done
  add_ambient e_scene =
      let s = r.stage.rendersettings in
      let hashname = setup.localfile s.ambientsound in
      when
        (not (length s.ambientsound == 0)
          && (r.extra.render_soundscape && setup.file_good hashname))
        (do
          e_diff ← add_child e_scene "diffuse"
          say e_diff "name" "ambient"
          attr e_diff "size" (num.pos_text s.roomsize)
          e_plug ← add_child e_diff "plugins"
          e_snd ← add_child e_plug "sndfile"
          attr e_snd "name" hashname
          attr e_snd "level" (num.text s.ambientlevel)
          say e_snd "loop" "0"
          say e_snd "transport" "false"
          say e_snd "channelorder" "FuMa"
          say e_snd "license" "CC0"
          say e_snd "resample" "true"
          e_gain ← add_child e_plug "gain"
          return tt)

  -- What this device hears; the names of its own sources come back.
  unfoldable pub add_listening : ℕ → ℕ → Build (List Bytes)
  add_listening e_rec e_scene =
      if r.stage.rendersettings.receive
      then (do
        when (b_sender real num r) (place_receiver e_rec)
        (az, names) ← add_sources real num r e_scene daz r.stage.stage (first_az, [])
        add_room e_scene
        add_ambient e_scene
        return names)
      else return []

  abbrev pub receives_second : Bool
  receives_second = real.lt (real.of_nat 0) r.stage.rendersettings.secrec

  unfoldable pub create_virtual_acoustics : ℕ → ℕ → ℕ → Build Done
  create_virtual_acoustics e_session e_rec e_scene =
      let this = this_entry real r in
      do
        names ← add_listening e_rec e_scene
        e_mods ← add_child e_session "modules"
        (waits, chcnt) ←
            loop r.stage.stage ([], 0)
              (λ (id, d) s.
                if length d.channels == 0
                then return s
                else add_network_receiver real num setup r e_mods e_session d s)
        when (receives_second && not (length this.channels == 0))
            (add_delayed_self real num setup r e_session e_mods)
        waits2 ← add_own_audio real num setup r e_session e_mods names waits
        add_downmix real num setup r e_session e_mods
        session_add_waitforjackports e_mods (r.stage.thisdeviceid ++ codes ".waitforports") waits2
            true
        add_headtracking real num setup r e_mods
        add_echo_canceller real num setup r e_mods
        when (not r.stage.rendersettings.rawmode) (do
          e_p2o ← add_child e_mods "pos2osc"
          say e_p2o "url" "osc.udp://localhost:9000"
          say e_p2o "mode" "2"
          say e_p2o "addparentname" "true"
          say e_p2o "sendsounds" "true"
          say e_p2o "taumin" "0.1"
          say e_p2o "transport" "false")

  abbrev pub add_main_route : ℕ → ℕ → Build Done
  add_main_route e_session e_mods =
      let s = r.stage.rendersettings in
      let clname = codes "main." ++ r.stage.thisdeviceid in
      do
        e_route ← add_child e_mods "route"
        when (calibrates real num r) (add_spkcalib real num r e_route)
        attr e_route "name" clname
        say e_route "channels" "2"
        attr e_route "gain" (decibel real num s.outputgain)
        when (not (length s.outputport1 == 0))
            (session_add_connect e_session (clname ++ codes ":out.0") s.outputport1)
        when (not (length s.outputport2 == 0))
            (session_add_connect e_session (clname ++ codes ":out.1") s.outputport2)

  unfoldable pub create_raw_dev : ℕ → Build Done
  create_raw_dev e_session =
      let this = this_entry real r in
      do
        e_mods ← add_child e_session "modules"
        when r.stage.rendersettings.receive (add_main_route e_session e_mods)
        (waits, chcnt) ←
            loop r.stage.stage ([], 0)
              (λ (id, d) s. add_network_receiver real num setup r e_mods e_session d s)
        when receives_second (add_delayed_self real num setup r e_session e_mods)
        waits2 ←
            (if length this.channels == 0
              then return waits
              else (add_sender real num setup r e_mods (length this.channels)
                  >> connect_raw_senders real num setup r e_session 0 this.channels waits))
        session_add_waitforjackports e_mods (r.stage.thisdeviceid ++ codes ".waitforports") waits2
            true
