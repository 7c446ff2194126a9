-- ===== src/Scene/Head.antt =====
-- Head tracking and echo cancellation in `create_virtual_acoustics` (src/ov_render_tascar.cc).
use libov.Prelude.{ℕ, not, ◌&&◌, ◌||◌, List, [], ◌∷◌, ◌++◌, if◌then◌else◌, ltb, ◌==◌, length, codes}
use libov.Real.{RealOps}
use libov.Message.{Bytes}
use libov.Settings.{DeviceChannel}
use libov.Session.{Render}
use libov.Session.Tascar.{get_stagedev_name}
use libov.Scene.{
  Build, Done, ◌>>=◌, ◌>>◌, add_child, attr, say, when, Numbers, Setup, bool_text,
  dist_to_other_tascarport, this_entry,
}

module _ {R : Type 0} (real : RealOps R) (num : Numbers R) (setup : Setup) (r : Render R) where
  abbrev pub local_url : ℕ → Bytes
  local_url port = codes "osc.udp://localhost:" ++ num.nat_text port ++ codes "/"

  -- What the tracker turns: the receiver, and the sources of this device.
  abbrev pub actors : List Bytes
  actors =
      let s = r.stage.rendersettings in
      (if s.headtrackingrotrec then codes "/main/main" ∷ [] else [])
      ++ (if s.headtrackingrotsrc then codes "/main/ego" ∷ [] else [])

  abbrev pub autoref : Bytes
  autoref =
      let tau = r.extra.headtrack_tauref in
      if real.lt (real.of_nat 0) tau
      then num.std_text (
          real.sub (real.of_nat 1)
            (num.exp (real.div real.neg_one (real.mul (real.of_nat 30) tau))))
      else codes "0"

  unfoldable pub add_headtracking : ℕ → Build Done
  add_headtracking e_mods =
      let s = r.stage.rendersettings in
      let this = this_entry real r in
      when (s.headtracking && s.receive) (do
        e_head ←
            (if s.headtrackingserial
              then add_child e_mods "serialheadtracker"
              else add_child e_mods "oscheadtracker")
        when (ltb 0 s.headtrackingport) (attr e_head "url" (local_url s.headtrackingport))
        when s.headtrackingrotsrc (do
          attr e_head "roturl" (local_url (dist_to_other_tascarport setup))
          attr e_head "rotpath"
              (codes "/*/" ++ get_stagedev_name real num.nat_text this.id r ++ codes "/zyxeuler"))
        attr e_head "actor" (num.join actors)
        attr e_head "autoref" autoref
        attr e_head "autoref_zonly" (bool_text r.extra.headtrack_autorefzonly)
        say e_head "smooth" "0.01"
        when (not s.headtrackingserial) (attr e_head "eogpath" r.extra.headtrack_eogpath)
        attr e_head "name" r.stage.thisdeviceid
        attr e_head "apply_rot" (bool_text (s.headtrackingrotrec || s.headtrackingrotsrc))
        say e_head "apply_loc" "false")

  -- The source ports, separated by a space.
  abbrev pub micports : List (DeviceChannel R) → Bytes
  micports [] = []
  micports (ch ∷ []) = ch.sourceport
  micports (ch ∷ chs) = ch.sourceport ++ codes " " ++ micports chs

  -- `spkports` has a space in it, so it is never empty.
  unfoldable pub add_echo_canceller : ℕ → Build Done
  add_echo_canceller e_mods =
      let s = r.stage.rendersettings in
      let spkports = s.outputport1 ++ codes " " ++ s.outputport2 in
      let mics = micports (this_entry real r).channels in
      when (r.extra.useloudspeaker && (not (length spkports == 0) && not (length mics == 0))) (do
        e_echoc ← add_child e_mods "echoc"
        say e_echoc "autoreconnect" "true"
        say e_echoc "measureatstart" "true"
        attr e_echoc "loudspeakerports" spkports
        attr e_echoc "micports" mics
        say e_echoc "premax" "16"
        attr e_echoc "level" (num.text r.extra.echoc_level)
        attr e_echoc "nrep" (num.nat_text r.extra.echoc_nrep)
        attr e_echoc "maxdist" (num.text r.extra.echoc_maxdist)
        attr e_echoc "filterlen" (num.nat_text r.extra.echoc_filterlen))
