-- ===== src/Scene/Rack.antt =====
-- Parts of the session (src/ov_render_tascar.cc): the calibration of loudspeakers, the reverb, the level
-- meters of the inputs, the metronome.
use libov.Prelude.{ℕ, ◌^◌, Bool, not, ◌&&◌, ◌++◌, bytes_eq, ltb, codes}
use libov.Real.{RealOps}
use libov.Message.{Bytes}
use libov.Extra.{Metronome}
use libov.Session.{Render, get_num_inputs}
use libov.Scene.{
  Build, Done, ◌>>=◌, ◌>>◌, return, add_child, attr, say, when, each_from, Numbers, bool_text,
  session_add_connect, decibel_f,
}

module _ {R : Type 0} (real : RealOps R) (num : Numbers R) (r : Render R) where
  -- `set_xmlattr` of a metronome, on the node of the metronome and that of a delay.
  unfoldable pub set_xmlattr : Metronome R → ℕ → ℕ → Build Done
  set_xmlattr m em ed = do
    attr em "bpm" (num.std_text m.bpm)
    attr em "bpb" (num.nat_text m.bpb)
    attr em "bypass" (bool_text m.bypass)
    attr ed "delay" (
        codes "0 " ++ num.std_text (real.mul (real.div (real.of_nat 1) (real.of_nat 1000)) m.delay))
    attr em "a1" (num.std_text m.level)
    attr em "ao" (num.std_text m.level)

  -- The length of the filters is an `int`, above 0.
  abbrev pub calibrates : Bool
  calibrates =
      let e = r.extra in
      e.spkcalib_use && (ltb 0 e.spkcalib_firlen && ltb e.spkcalib_firlen (2 ^ 31))

  abbrev pub add_speaker : ℕ → Bytes → Build Done
  add_speaker e_layout gains = do
    e_spk ← add_child e_layout "speaker"
    attr e_spk "eqfirlen" (num.nat_text r.extra.spkcalib_firlen)
    attr e_spk "eqfreq" r.extra.spkcalib_vfreq
    attr e_spk "eqgain" gains

  unfoldable pub add_spkcalib : ℕ → Build Done
  add_spkcalib e_route =
      let rectype = r.stage.rendersettings.rectype in
      when (not (bytes_eq rectype (codes "itu51")) && calibrates) (do
        e_plug ← add_child e_route "plugins"
        e_spkcal ← add_child e_plug "spkcalib"
        e_layout ← add_child e_spkcal "layout"
        add_speaker e_layout r.extra.spkcalib_vgainl
        when (not (bytes_eq rectype (codes "omni"))) (add_speaker e_layout r.extra.spkcalib_vgainr))

  unfoldable pub configure_simplefdn : ℕ → Build ℕ
  configure_simplefdn e_scene = do
    e_rvb ← add_child e_scene "reverb"
    say e_rvb "name" "reverb"
    say e_rvb "id" "reverb"
    say e_rvb "type" "simplefdn"
    attr e_rvb "volumetric" (num.pos_text r.stage.rendersettings.roomsize)
    attr e_rvb "forwardstages" (num.nat_text r.extra.fdnforwardstages)
    say e_rvb "gainmethod" "original"
    say e_rvb "image" "false"
    attr e_rvb "fdnorder" (num.nat_text r.extra.fdnorder)
    say e_rvb "lowcut" "125"
    say e_rvb "truncate_forward" "true"
    say e_rvb "dw" "60"
    attr e_rvb "absorption" (num.text r.stage.rendersettings.absorption)
    attr e_rvb "damping" (num.text r.stage.rendersettings.damping)
    attr e_rvb "gain" (decibel_f real num r.stage.rendersettings.reverbgain)
    return e_rvb

  unfoldable pub create_levelmeter_route : ℕ → ℕ → Build Done
  create_levelmeter_route e_session e_mods =
      let clientname = r.stage.thisdevice.uid ++ codes ".levelanalysis" in
      do
        mod_ ← add_child e_mods "route"
        attr mod_ "name" clientname
        attr mod_ "channels" (num.nat_text (get_num_inputs r))
        say mod_ "caliblevel_in" "93.9794001"
        e_plugs ← add_child mod_ "plugins"
        e_meter ← add_child e_plugs "reclevelanalyzer"
        say e_meter "triggered" "true"
        say e_meter "tau_segment" "0.125"
        say e_meter "tau_analysis" "25.0"
        say e_meter "path" "/reclevelanalyzer"
        each_from 0 r.stage.thisdevice.channels (λ chn ch.
            session_add_connect e_session ch.sourceport
              (clientname ++ codes ":in." ++ num.nat_text chn))
