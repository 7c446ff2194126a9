-- ===== src/Scene/Net.antt =====
-- Receivers of the audio of other devices (src/ov_render_tascar.cc): `add_network_receiver`,
-- `add_secondary_bus`, and the loops over the stage that call them.
use libov.Prelude.{
  ℕ, zero, suc, ◌+◌, ◌%◌, ◌^◌, Bool, not, ◌&&◌, ◌||◌, List, [], ◌∷◌, ◌++◌, if◌then◌else◌, ◌==◌,
  length, codes,
}
use libov.Real.{RealOps}
use libov.Message.{Bytes}
use libov.Settings.{DeviceChannel, StageDevice}
use libov.Settings.Differ.{bool_eq}
use libov.Session.{Render}
use libov.Session.Tascar.{get_stagedev_name}
use libov.Scene.{
  Build, ◌>>=◌, ◌>>◌, return, add_child, attr, say, when, Numbers, Setup, portoffset,
  session_add_connect, this_entry, decibel,
}
use libov.Scene.Ports.{get_zitaport}

module _ {R : Type 0} (real : RealOps R) (num : Numbers R) (setup : Setup) (r : Render R) where
  abbrev pub own : StageDevice R → Bool
  own d = r.stage.thisstagedeviceid == d.id

  abbrev pub stagedev_name : StageDevice R → Bytes
  stagedev_name d = get_stagedev_name real num.nat_text d.id r

  -- Audio is received as it is, not for a virtual room.
  abbrev pub is_raw : Bool
  is_raw = r.stage.rendersettings.rawmode || r.stage.thisdevice.receivedownmix

  -- "1,2,3", from the k-th channel on.
  abbrev pub channel_numbers : ℕ → List (DeviceChannel R) → Bytes
  channel_numbers k [] = []
  channel_numbers k (ch ∷ chs) =
      (if k == 0 then [] else codes ",") ++ num.nat_text (k + 1) ++ channel_numbers (k + 1) chs

  abbrev pub channel_list : StageDevice R → Bytes
  channel_list d = if d.senddownmix then codes "1,2" else channel_numbers 0 d.channels

  -- The device has a receiver: it is another one, and sends what this one takes.
  unfoldable pub is_received : StageDevice R → Bool
  is_received d =
      r.stage.rendersettings.receive
      && (not (own d) && bool_eq d.senddownmix (this_entry real r).receivedownmix)

  abbrev pub jitter_of : StageDevice R → R
  jitter_of d = real.add (this_entry real r).receiverjitter d.senderjitter

  -- The command of the program that receives the audio.
  abbrev pub n2j_command : Bytes → Bytes → R → ℕ → Bytes
  n2j_command chanlist jname buff port =
      setup.zitapath
      ++ codes "ovzita-n2j --chan "
      ++ chanlist
      ++ codes " --jname "
      ++ jname
      ++ codes " --buf "
      ++ num.text buff
      ++ codes " 0.0.0.0 "
      ++ num.nat_text port

  -- The connections from the c-th channel on; the ports to wait for come back.
  abbrev pub connect_secondary :
      ℕ
      → StageDevice R
      → Bytes
      → Bytes
      → ℕ
      → List (DeviceChannel R)
      → List Bytes
      → Build (List Bytes)
  connect_secondary e_session d netclientname clientname c [] waitports = return waitports
  connect_secondary e_session d netclientname clientname c (ch ∷ chs) waitports =
      let srcport =
        netclientname
        ++ codes "."
        ++ r.stage.thisdeviceid
        ++ codes ":out_"
        ++ num.nat_text (c + 1) in
      let destport = clientname ++ codes ":in." ++ num.nat_text c in
      let waits = if own d then waitports else waitports ++ (srcport ∷ []) in
      when (not (own d)) (session_add_connect e_session srcport destport)
      >> connect_secondary e_session d netclientname clientname (c + 1) chs waits

  unfoldable pub add_secondary_bus : ℕ → ℕ → StageDevice R → Bytes → List Bytes → Build (List Bytes)
  add_secondary_bus e_mods e_session d chanlist waitports =
      let clientname = stagedev_name d ++ codes "_sec" in
      let netclientname = codes "n2j_" ++ num.nat_text d.id ++ codes "_sec" in
      do
        when (not d.nozita) (do
          e_sys ← add_child e_mods "system"
          say e_sys "noshell" "true"
          say e_sys "sleep" "0.2"
          attr e_sys "command" (
              n2j_command chanlist (netclientname ++ codes "." ++ r.stage.thisdeviceid)
                (real.add r.stage.rendersettings.secrec (jitter_of d))
                (get_zitaport d.id (portoffset setup) 100)))
        e_route ← add_child e_mods "route"
        attr e_route "name" clientname
        attr e_route "channels" (num.nat_text (length d.channels))
        attr e_route "gain" (decibel real num d.gain)
        if d.nozita
            then return waitports
            else connect_secondary e_session d netclientname clientname 0 d.channels waitports

  -- The outputs of a route to the outputs of the device, left and right in turn.
  abbrev pub connect_raw :
      ℕ → StageDevice R → Bytes → Bytes → ℕ → ℕ → List Bytes × ℕ → Build (List Bytes × ℕ)
  connect_raw e_session d clientname n2jclientname c zero (waitports, chcnt) =
      return (waitports, chcnt)
  connect_raw e_session d clientname n2jclientname c (suc n) (waitports, chcnt) =
      let count = (chcnt + 1) % 2 ^ 32 in
      let srcport =
        clientname ++ codes "." ++ r.stage.thisdeviceid ++ codes ":out." ++ num.nat_text c in
      let destport =
        codes "main."
        ++ r.stage.thisdeviceid
        ++ (if count % 2 == 1 then codes ":in.0" else codes ":in.1") in
      let waits =
        waitports
        ++ (srcport ∷ [])
        ++ (if d.nozita
            then []
            else (n2jclientname ++ codes ":out_" ++ num.nat_text (c + 1)) ∷ []) in
      when (not (own d)) (session_add_connect e_session srcport destport)
      >> connect_raw e_session d clientname n2jclientname (c + 1) n
          (if own d then waitports else waits, count)

  abbrev pub add_raw_route :
      ℕ → ℕ → StageDevice R → Bytes → Bytes → List Bytes × ℕ → Build (List Bytes × ℕ)
  add_raw_route e_mods e_session d clientname n2jclientname s =
      let memchannels = if d.senddownmix then 2 else length d.channels in
      do
        e_route ← add_child e_mods "route"
        attr e_route "name" (clientname ++ codes "." ++ r.stage.thisdeviceid)
        attr e_route "channels" (num.nat_text memchannels)
        attr e_route "gain" (decibel real num d.gain)
        when (not d.nozita) (attr e_route "connect" (n2jclientname ++ codes ":out_.*"))
        connect_raw e_session d clientname n2jclientname 0 memchannels s

  -- The outputs of the receiver to the sound sources: `c` counts the channels, `n` those without a name.
  abbrev pub connect_sources :
      ℕ
      → StageDevice R
      → Bytes
      → Bytes
      → ℕ
      → ℕ
      → List (DeviceChannel R)
      → List Bytes
      → Build (List Bytes)
  connect_sources e_session d clientname n2jclientname c n [] waitports = return waitports
  connect_sources e_session d clientname n2jclientname c n (ch ∷ chs) waitports =
      let srcport = n2jclientname ++ codes ":out_" ++ num.nat_text (c + 1) in
      let unnamed = length ch.name == 0 in
      let destport =
        r.stage.thisdeviceid
        ++ codes ".main:"
        ++ clientname
        ++ codes "."
        ++ (if unnamed then num.nat_text n else ch.name)
        ++ codes ".0" in
      if own d
      then connect_sources e_session d clientname n2jclientname (c + 1) n chs waitports
      else (session_add_connect e_session srcport destport
          >> connect_sources e_session d clientname n2jclientname (c + 1)
              (if unnamed then n + 1 else n) chs (waitports ++ (srcport ∷ [])))

  abbrev pub add_receiver : ℕ → ℕ → StageDevice R → List Bytes × ℕ → Build (List Bytes × ℕ)
  add_receiver e_mods e_session d (waitports, chcnt) =
      let clientname = stagedev_name d in
      let plain = clientname ++ codes "." ++ r.stage.thisdeviceid in
      let n2jclientname = if is_raw then codes "n2j_" ++ plain else plain in
      do
        when (not d.nozita) (do
          e_sys ← add_child e_mods "system"
          say e_sys "sleep" "0.2"
          say e_sys "noshell" "true"
          attr e_sys "command" (
              n2j_command (channel_list d) n2jclientname (jitter_of d)
                (get_zitaport d.id (portoffset setup) 0)))
        (waits, count) ←
            (if is_raw
              then add_raw_route e_mods e_session d clientname n2jclientname (waitports, chcnt)
              else if d.nozita
              then return (waitports, chcnt)
              else (connect_sources e_session d clientname n2jclientname 0 0 d.channels waitports
                  >>= (λ w. return (w, chcnt))))
        if real.lt (real.of_nat 0) r.stage.rendersettings.secrec && not (own d)
            then (add_secondary_bus e_mods e_session d (channel_list d) waits
                >>= (λ w. return (w, count)))
            else return (waits, count)

  -- A device without a receiver changes nothing.
  unfoldable pub add_network_receiver :
      ℕ → ℕ → StageDevice R → List Bytes × ℕ → Build (List Bytes × ℕ)
  add_network_receiver e_mods e_session d s =
      if is_received d then add_receiver e_mods e_session d s else return s
