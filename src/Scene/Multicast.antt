-- ===== src/Scene/Multicast.antt =====
-- The programs that receive and send audio by multicast, in `start_session` (src/ov_render_tascar.cc).
use libov.Prelude.{
  ℕ, zero, suc, ◌+◌, false, List, [], ◌∷◌, ◌++◌, if◌then◌else◌, ltb, ◌==◌, map, codes,
}
use libov.Message.{Bytes}
use libov.Session.{Render}
use libov.Scene.{
  Build, Done, ◌>>=◌, ◌>>◌, add_child, attr, say, Numbers, Setup, session_add_waitforjackports,
}

-- `chmap[ch] = och`, by ascending channel.
abbrev pub put_channel : ℕ → ℕ → List (ℕ × ℕ) → List (ℕ × ℕ)
put_channel ch och [] = (ch, och) ∷ []
put_channel ch och ((k, v) ∷ m) =
    let rest = put_channel ch och m in
    if ltb ch k then (ch, och) ∷ (k, v) ∷ m else if k == ch then (ch, och) ∷ m else (k, v) ∷ rest

-- The channels to receive, each with its place in the configuration; of two places, the last.
abbrev pub channel_map : ℕ → List ℕ → List (ℕ × ℕ) → List (ℕ × ℕ)
channel_map och [] m = m
channel_map och (ch ∷ chs) m = channel_map (och + 1) chs (put_channel ch (och + 1) m)

module _ {R : Type 0} (num : Numbers R) (setup : Setup) (r : Render R) where
  abbrev pub comma_list : List (ℕ × ℕ) → Bytes
  comma_list [] = []
  comma_list ((k, v) ∷ []) = num.nat_text k
  comma_list ((k, v) ∷ m) = num.nat_text k ++ codes "," ++ comma_list m

  abbrev pub connections : List (ℕ × ℕ) → Bytes
  connections [] = []
  connections ((k, v) ∷ m) =
      codes "--conn system:playback_" ++ num.nat_text v ++ codes " " ++ connections m

  abbrev pub add_program : ℕ → Bytes → Build Done
  add_program e_mods cmd = do
    e_zit ← add_child e_mods "system"
    say e_zit "sleep" "0.2"
    say e_zit "noshell" "true"
    attr e_zit "command" cmd
    say e_zit "relaunch" "true"

  abbrev pub target : Bytes
  target =
      let e = r.extra in
      e.mczitaaddr ++ codes " " ++ num.nat_text e.mczitaport ++ codes " " ++ e.mczitadevice

  unfoldable pub add_multicast_receiver : ℕ → Build Done
  add_multicast_receiver e_mods =
      let e = r.extra in
      let chmap = channel_map 0 e.mczitachannels [] in
      do
        add_program e_mods (
            setup.zitapath
            ++ codes "ovzita-n2j --chan "
            ++ comma_list chmap
            ++ codes " --buff "
            ++ num.nat_text e.mczitabuffer
            ++ codes " --jname mc "
            ++ (if e.mczita_autoconnect_rec then connections chmap else [])
            ++ target)
        session_add_waitforjackports e_mods (r.stage.thisdeviceid ++ codes ".waitforportsmcrec")
            (map (λ ch. codes "mc:out_" ++ num.nat_text ch.0) chmap) false

  abbrev pub multicast_ports : ℕ → ℕ → List Bytes
  multicast_ports ch zero = []
  multicast_ports ch (suc n) =
      (codes "j2n_" ++ r.stage.thisdeviceid ++ codes "_mc:in_" ++ num.nat_text (ch + 1))
      ∷ multicast_ports (ch + 1) n

  unfoldable pub add_multicast_sender : ℕ → Build Done
  add_multicast_sender e_mods =
      let e = r.extra in
      do
        add_program e_mods (
            setup.zitapath
            ++ codes "ovzita-j2n --chan "
            ++ num.nat_text e.mczitasendch
            ++ codes " --jname j2n_"
            ++ r.stage.thisdeviceid
            ++ codes "_mc "
            ++ target)
        session_add_waitforjackports e_mods (r.stage.thisdeviceid ++ codes ".waitforportsmcsend")
            (multicast_ports 0 e.mczitasendch) false
