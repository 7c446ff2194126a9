-- ===== src/Scene/Senders.antt =====
-- What a device sends in `create_virtual_acoustics` and `create_raw_dev` (src/ov_render_tascar.cc): the
-- delayed bus of its own channels, the metronome, and the program that sends its audio.
use libov.Prelude.{ℕ, ◌+◌, not, ◌&&◌, List, [], ◌∷◌, ◌++◌, if◌then◌else◌, length, codes, ◌==◌}
use libov.Real.{RealOps}
use libov.Message.{Bytes}
use libov.Settings.{DeviceChannel}
use libov.Session.{Render}
use libov.Session.Tascar.{get_stagedev_name}
use libov.Scene.{
  Build, Done, ◌>>=◌, ◌>>◌, return, add_child, attr, say, when, each_from, Numbers, Setup,
  portoffset, session_add_connect, this_entry, decibel,
}
use libov.Scene.Ports.{get_zitaport, get_channel_source}
use libov.Scene.Rack.{set_xmlattr}

module _ {R : Type 0} (real : RealOps R) (num : Numbers R) (setup : Setup) (r : Render R) where
  abbrev pub thousandth : R → R
  thousandth x = real.mul (real.div (real.of_nat 1) (real.of_nat 1000)) x

  -- The channels of this device once more, later by the delay of the second receivers.
  unfoldable pub add_delayed_self : ℕ → ℕ → Build Done
  add_delayed_self e_session e_mods =
      let this = this_entry real r in
      let clientname = get_stagedev_name real num.nat_text this.id r ++ codes "_sec" in
      do
        mod_ ← add_child e_mods "route"
        attr mod_ "name" clientname
        attr mod_ "channels" (num.nat_text (length this.channels))
        plgs ← add_child mod_ "plugins"
        del ← add_child plgs "delay"
        attr del "delay" (
            num.text (
              thousandth (
                real.add (real.add r.stage.rendersettings.secrec this.receiverjitter)
                  this.senderjitter)))
        attr mod_ "gain" (decibel real num this.gain)
        each_from 0 this.channels (λ chn ch.
            session_add_connect e_session (get_channel_source ch)
              (clientname ++ codes ":in." ++ num.nat_text chn))

  abbrev pub j2n_command : ℕ → Bytes
  j2n_command channels =
      setup.zitapath
      ++ codes "ovzita-j2n --chan "
      ++ num.nat_text channels
      ++ codes " --jname "
      ++ r.stage.thisdeviceid
      ++ codes "_sender --"
      ++ r.extra.zitasampleformat
      ++ codes " 127.0.0.1 "
      ++ num.nat_text (get_zitaport r.stage.thisstagedeviceid (portoffset setup) 0)

  abbrev pub add_sender : ℕ → ℕ → Build Done
  add_sender e_mods channels = do
    e_sys ← add_child e_mods "system"
    say e_sys "sleep" "0.2"
    say e_sys "noshell" "true"
    attr e_sys "command" (j2n_command channels)

  -- The input of the sender for the channel after `chn` others.
  abbrev pub sender_port : ℕ → Bytes
  sender_port chn = r.stage.thisdeviceid ++ codes "_sender:in_" ++ num.nat_text (chn + 1)

  -- The language leaves open which of the two plugins is added first.
  abbrev pub add_metronome : ℕ → Build Done
  add_metronome e_mods = do
    e_routemetro ← add_child e_mods "route"
    attr e_routemetro "name" (r.stage.thisdeviceid ++ codes ".metronome")
    say e_routemetro "channels" "2"
    e_mplug ← add_child e_routemetro "plugins"
    em ← add_child e_mplug "metronome"
    ed ← add_child e_mplug "delay"
    set_xmlattr real num r r.extra.metronome em ed

  -- The k-th name of the sources of this device, if there is one.
  abbrev pub to_ego : ℕ → List Bytes → Build Done
  to_ego e_session [] = return tt
  to_ego e_session (name ∷ names) =
      session_add_connect e_session (r.stage.thisdeviceid ++ codes ".metronome:out.1")
        (r.stage.thisdeviceid ++ codes ".main:" ++ name)

  abbrev pub rest_of : List Bytes → List Bytes
  rest_of [] = []
  rest_of (name ∷ names) = names

  -- Each channel, after `chn` others, and the metronome to the sender; the metronome to the source of
  -- the channel.
  abbrev pub connect_senders :
      ℕ → ℕ → List (DeviceChannel R) → List Bytes → List Bytes → Build (List Bytes)
  connect_senders e_session chn [] names waitports = return waitports
  connect_senders e_session chn (ch ∷ chs) names waitports =
      let sends = not r.stage.thisdevice.nozita in
      when sends (
        session_add_connect e_session (get_channel_source ch) (sender_port chn)
        >> session_add_connect e_session (r.stage.thisdeviceid ++ codes ".metronome:out.0")
            (sender_port chn))
      >> when r.stage.rendersettings.receive (to_ego e_session names)
      >> connect_senders e_session (chn + 1) chs (rest_of names)
          (if sends then waitports ++ (sender_port chn ∷ []) else waitports)

  -- A device that sends its channels.
  unfoldable pub add_own_audio : ℕ → ℕ → List Bytes → List Bytes → Build (List Bytes)
  add_own_audio e_session e_mods names waitports =
      let this = this_entry real r in
      if not (length this.channels == 0) && not r.stage.thisdevice.senddownmix
      then (do
        add_metronome e_mods
        when (not r.stage.thisdevice.nozita) (add_sender e_mods (length this.channels))
        connect_senders e_session 0 this.channels names waitports)
      else return waitports

  -- A device that sends what it hears.
  unfoldable pub add_downmix : ℕ → ℕ → Build Done
  add_downmix e_session e_mods =
      when
        (r.stage.thisdevice.senddownmix
          && (r.stage.rendersettings.receive && not r.stage.thisdevice.nozita))
        (do
          add_sender e_mods 2
          session_add_connect e_session (r.stage.thisdeviceid ++ codes ".main:main_l")
              (r.stage.thisdeviceid ++ codes "_sender:in_1")
          session_add_connect e_session (r.stage.thisdeviceid ++ codes ".main:main_r")
              (r.stage.thisdeviceid ++ codes "_sender:in_2"))

  -- In raw mode: the channels to the sender.
  abbrev pub connect_raw_senders : ℕ → ℕ → List (DeviceChannel R) → List Bytes → Build (List Bytes)
  connect_raw_senders e_session chn [] waitports = return waitports
  connect_raw_senders e_session chn (ch ∷ chs) waitports =
      session_add_connect e_session (get_channel_source ch) (sender_port chn)
      >> connect_raw_senders e_session (chn + 1) chs (waitports ++ (sender_port chn ∷ []))
