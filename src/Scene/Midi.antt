-- ===== src/Scene/Midi.antt =====
-- The module for a MIDI controller in `start_session` (src/ov_render_tascar.cc): eight faders to a MIDI
-- channel, the last of them for the main volume.
use libov.Prelude.{ℕ, zero, suc, ◌+◌, List, [], ◌∷◌, ◌++◌, map, ◌==◌, if◌then◌else◌, length, codes}
use libov.Message.{Bytes}
use libov.Settings.{DeviceChannel}
use libov.Session.{Render}
use libov.Scene.{Build, Done, ◌>>=◌, ◌>>◌, add_child, attr, say, Numbers}

-- A fader: what it controls, its MIDI channel, and its number.
pub record Fader : Type 0 where
  pub pattern : Bytes
  pub channel : ℕ
  pub number : ℕ

module _ {R : Type 0} (num : Numbers R) where
  abbrev pub fader_of : ℕ → ℕ → ℕ → DeviceChannel R → Fader
  fader_of midi_channel k k_name ch = record {
    pattern = codes "/*/ego/" ++ (if length ch.name == 0 then num.nat_text k_name else ch.name);
    channel = midi_channel;
    number = k;
  }

  -- The loop over the channels, and the last MIDI channel.
  unfoldable pub faders : ℕ → ℕ → ℕ → List (DeviceChannel R) → List Fader × ℕ
  faders midi_channel k k_name [] = ([], midi_channel)
  faders midi_channel k k_name (ch ∷ chs) =
      let full = k == 7 in
      let c = if full then midi_channel + 1 else midi_channel in
      let j = if full then 0 else k in
      let next_name = if length ch.name == 0 then k_name + 1 else k_name in
      let rest = faders c (j + 1) next_name chs in (fader_of c j k_name ch ∷ rest.0, rest.1)

  -- The main volume on each MIDI channel, from the k-th on.
  unfoldable pub main_faders : ℕ → ℕ → List Fader
  main_faders k zero = []
  main_faders k (suc n) =
      record { pattern = codes "/*/main"; channel = k; number = 7 } ∷ main_faders (k + 1) n

  unfoldable pub all_faders : List (DeviceChannel R) → List Fader
  all_faders chs =
      let (own, midi_channel) = faders 0 0 0 chs in own ++ main_faders 0 (midi_channel + 1)

  abbrev pub gain_controller : Fader → Bytes
  gain_controller f = num.nat_text f.channel ++ codes "/" ++ num.nat_text f.number

  abbrev pub mute_controller : Fader → Bytes
  mute_controller f = num.nat_text f.channel ++ codes "/" ++ num.nat_text (f.number + 8)

  unfoldable pub add_midictl : Render R → ℕ → Build Done
  add_midictl r e_mods =
      let fs = all_faders r.stage.thisdevice.channels in
      do
        e_midi ← add_child e_mods "midictl"
        say e_midi "connect" "BCF2000:0"
        say e_midi "min" "-30"
        say e_midi "max" "10"
        say e_midi "nonlinscale" "true"
        attr e_midi "controllers"
            (num.join (map gain_controller fs) ++ codes " " ++ num.join (map mute_controller fs))
        attr e_midi "pattern" (num.join (map (λ f. f.pattern) fs))
