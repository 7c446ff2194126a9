-- ===== src/Scene/Start.antt =====
-- The document that `start_session` makes (src/ov_render_tascar.cc), in the state in which the entries of the
-- stage that it reads are there, and what it asks of the new client.
use libov.Prelude.{ℕ, not, ◌||◌, ◌++◌, if◌then◌else◌, ◌==◌, bytes_eq, length, codes}
use libov.Real.{RealOps}
use libov.Message.{Bytes}
use libov.Settings.{DeviceChannel, ChannelPlugin}
use libov.Session.{Render, in_room}
use libov.Scene.{
  Build, Done, ◌>>=◌, ◌>>◌, return, add_named, add_child, put_attribute, put_name, attr, say, when,
  each, Numbers, Setup, my_tascarport, session_add_connect, decibel,
}
use libov.Scene.Rack.{calibrates, add_spkcalib, configure_simplefdn, create_levelmeter_route}
use libov.Scene.Sources.{add_monitor_sound}
use libov.Scene.Senders.{thousandth}
use libov.Scene.Virtual.{create_virtual_acoustics, create_raw_dev}
use libov.Scene.Multicast.{add_multicast_receiver, add_multicast_sender}
use libov.Scene.Midi.{add_midictl}

module _ {R : Type 0} (real : RealOps R) (num : Numbers R) (setup : Setup) (r : Render R) where
  abbrev pub add_tuner : ℕ → ℕ → Build Done
  add_tuner e_session e_mods = do
    e_tuner ← add_child e_mods "tuner"
    say e_tuner "url" "osc.udp://localhost:9000/"
    attr e_tuner "f0" (num.text r.extra.tuner_f0)
    attr e_tuner "tuning" r.extra.tuner_tuning
    say e_tuner "tau" "0.5"
    say e_tuner "strobebufferlen" "60"
    attr e_tuner "isactive" (num.bool_str r.extra.tuner_active)
    each r.stage.thisdevice.channels
        (λ ch. session_add_connect e_session ch.sourceport (codes "tuner:in"))

  -- The effects of a channel.
  abbrev pub add_plugin : ℕ → ChannelPlugin → Build Done
  add_plugin e_plugs plug = do
    e_plug ← add_named e_plugs plug.name
    each plug.params (λ (key, value). put_attribute e_plug key value)

  abbrev pub add_bus : ℕ → ℕ → DeviceChannel R → Build Done
  add_bus e_session e_mods ch = do
    e_bus ← add_child e_mods "route"
    attr e_bus "name" (codes "bus." ++ ch.id)
    say e_bus "channels" "1"
    session_add_connect e_session ch.sourceport (codes "bus." ++ ch.id ++ codes ":in.0")
    when (not (length ch.plugins == 0))
        (do e_plugs ← add_child e_bus "plugins"; each ch.plugins (add_plugin e_plugs))

  -- The names of the outputs depend on the kind of receiver.
  abbrev pub output_name : Bytes → Bytes → Bytes
  output_name plain surround =
      let rectype = r.stage.rendersettings.rectype in
      if bytes_eq rectype (codes "omni")
      then codes "main.0"
      else if bytes_eq rectype (codes "itu51")
      then surround
      else plain

  abbrev pub connect_output : ℕ → Bytes → Bytes → Build Done
  connect_output e_session srcport destport =
      when (not (length destport == 0))
        (session_add_connect e_session (r.stage.thisdeviceid ++ codes ".main:" ++ srcport) destport)

  unfoldable pub add_main_receiver : ℕ → ℕ → Build ℕ
  add_main_receiver e_session e_scene =
      let s = r.stage.rendersettings in
      do
        e_rec ← add_child e_scene "receiver"
        when (calibrates real num r) (add_spkcalib real num r e_rec)
        attr e_rec "type" s.rectype
        say e_rec "layers" "1"
        when (bytes_eq s.rectype (codes "ortf"))
            (do say e_rec "angle" "110"; say e_rec "broadband" "true")
        when (bytes_eq s.rectype (codes "hrtf")) (say e_rec "prewarpingmode" "2")
        when (real.lt (real.of_nat 0) s.decorr) (do
          say e_rec "decorr" "true"
          attr e_rec "decorr_length" (num.text (thousandth real num setup r s.decorr)))
        say e_rec "name" "main"
        attr e_rec "gain" (decibel real num s.outputgain)
        attr e_rec "delaycomp" (num.text (real.div s.delaycomp (real.of_nat 340)))
        when (not r.stage.thisdevice.senddownmix) (do
          connect_output e_session (output_name (codes "main_l") (codes "main.0L")) s.outputport1
          connect_output e_session (output_name (codes "main_r") (codes "main.1R")) s.outputport2)
        return e_rec

  abbrev pub add_monitor : ℕ → Build Done
  add_monitor e_scene = do
    e_src ← add_child e_scene "source"
    say e_src "name" "ego"
    each r.stage.thisdevice.channels (add_monitor_sound real num r e_src)
    when r.stage.rendersettings.renderreverb (do
      e_rvb ← configure_simplefdn real num r e_scene
      say e_rvb "volumetricgainwithdistance" "true")

  abbrev pub add_announcement : ℕ → Build Done
  add_announcement e_scene = do
    e_src ← add_child e_scene "source"
    say e_src "name" "announce"
    e_snd ← add_child e_src "sound"
    say e_snd "maxdist" "50"
    say e_snd "gainmodel" "1"
    say e_snd "x" "4"
    e_plugs ← add_child e_snd "plugins"
    e_sndfile ← add_child e_plugs "sndfile"
    attr e_sndfile "name" (setup.folder ++ codes "announce.flac")
    say e_sndfile "level" "57"
    say e_sndfile "transport" "false"
    say e_sndfile "resample" "true"
    say e_sndfile "loop" "0"

  -- The scene of a virtual room, of the monitor, or of an announcement. Without a receiver, its node is
  -- not used.
  unfoldable pub add_scene : ℕ → ℕ → Build Done
  add_scene e_session e_scene =
      let receive = r.stage.rendersettings.receive in
      do
        e_rec ← (if receive then add_main_receiver e_session e_scene else return 0)
        if in_room r
            then create_virtual_acoustics real num setup r e_session e_rec e_scene
            else when receive (
                if r.extra.emptysessionismonitor
                then add_monitor e_scene
                else add_announcement e_scene)

  -- The recorder, the include file and what else is configured.
  unfoldable pub add_services : ℕ → ℕ → Build Done
  add_services e_session e_mods =
      let e = r.extra in
      do
        when e.mczita (add_multicast_receiver num setup r e_mods)
        when e.mczitasend (add_multicast_sender num setup r e_mods)
        when (not setup.secondary) (do
          e_jackrec ← add_child e_mods "jackrec"
          say e_jackrec "url" "osc.udp://localhost:9000/"
          attr e_jackrec "sampleformat" e.jackrec_sampleformat
          attr e_jackrec "fileformat" e.jackrec_fileformat
          say e_jackrec "pattern" "rec*.*"
          e_touch ← add_child e_mods "touchosc"
          return tt)
        when (not (length e.tscinclude == 0)) (do
          e_inc ← add_child e_session "include"
          attr e_inc "name" (r.stage.thisdeviceid ++ codes ".itsc"))
        when (not (length e.mhaconfig == 0)) (do
          e_sys ← add_child e_mods "system"
          attr e_sys "command" (codes "mha ?read:" ++ r.stage.thisdeviceid ++ codes ".mhacfg"))
        when e.usebcf2000 (add_midictl num r e_mods)

  unfoldable pub session_document : Build Done
  session_document =
      let s = r.stage.rendersettings in
      do
        put_name 0 (codes "session")
        attr 0 "srv_port" (num.nat_text (my_tascarport setup))
        say 0 "duration" "36000"
        attr 0 "name" r.stage.thisdeviceid
        say 0 "license" "CC0"
        attr 0 "levelmeter_tc" (num.text s.lmetertc)
        attr 0 "levelmeter_weight" s.lmeterfw
        e_scene ← add_child 0 "scene"
        say e_scene "name" "main"
        e_mods ← add_child 0 "modules"
        when r.extra.getoscvars (do
          e_osclist ← add_child e_mods "osclist"
          say e_osclist "timeout" "120"
          e_lsl ← add_child e_mods "lsllist"
          return tt)
        when r.extra.reclevelanalyser (create_levelmeter_route real num r 0 e_mods)
        add_tuner 0 e_mods
        when (in_room r || r.extra.emptysessionismonitor)
            (each r.stage.thisdevice.channels (add_bus 0 e_mods))
        (if s.rawmode || r.stage.thisdevice.receivedownmix
            then when (in_room r) (create_raw_dev real num setup r 0)
            else add_scene 0 e_scene)
        each s.xports (λ (src, dest). session_add_connect 0 src dest)
        add_services 0 e_mods
