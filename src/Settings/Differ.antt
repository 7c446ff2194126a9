-- ===== src/Settings/Differ.antt =====
-- The operators `!=` (and one `==`) of src/ov_types.cc.
use mathlib.Core.Bool.{xor}
use libov.Prelude.{
  ℕ, Bool, true, false, not, ◌&&◌, ◌||◌, Option, none, some, List, [], ◌∷◌, ◌==◌, if◌then◌else◌,
  length, bytes_eq,
}
use libov.Real.{RealOps}
use libov.Message.{Bytes}
use libov.Settings.{
  Pos, ZyxEuler, AudioDevice, ChannelPlugin, DeviceChannel, StageDevice, RenderSettings,
}

-- `==` of vectors and of maps, entry by entry.
abbrev pub list_eq : {A : Type 0} → (A → A → Bool) → List A → List A → Bool
list_eq eq [] [] = true
list_eq eq (x ∷ xs) (y ∷ ys) = eq x y && list_eq eq xs ys
list_eq eq [] (y ∷ ys) = false
list_eq eq (x ∷ xs) [] = false

unfoldable pub bool_eq : Bool → Bool → Bool
bool_eq a b = not (xor a b)

abbrev pub entry_eq : Bytes × Bytes → Bytes × Bytes → Bool
entry_eq (k, v) (k', v') = bytes_eq k k' && bytes_eq v v'

abbrev pub find_entry : Bytes → List (Bytes × Bytes) → Option Bytes
find_entry k [] = none
find_entry k ((j, v) ∷ m) = if bytes_eq j k then some v else find_entry k m

abbrev pub has_entry : List (Bytes × Bytes) → Bytes × Bytes → Bool
has_entry m (k, v) = elim (find_entry k m) [ none ↦ false | some w ↦ bytes_eq v w ]

abbrev pub all_entries : List (Bytes × Bytes) → List (Bytes × Bytes) → Bool
all_entries m [] = true
all_entries m (e ∷ es) = has_entry m e && all_entries m es

-- `==` of unordered maps: xs many entries, and each entry of the one is in the other.
abbrev pub map_eq : List (Bytes × Bytes) → List (Bytes × Bytes) → Bool
map_eq a b = length a == length b && all_entries b a

unfoldable pub plugin_eq : ChannelPlugin → ChannelPlugin → Bool
plugin_eq a b = bytes_eq a.name b.name && list_eq entry_eq a.params b.params

module _ {R : Type 0} (real : RealOps R) where
  abbrev pub ne : R → R → Bool
  ne a b = not (real.eq a b)

  unfoldable pub pos_ne : Pos R → Pos R → Bool
  pos_ne a b = ne a.x b.x || (ne a.y b.y || ne a.z b.z)

  unfoldable pub euler_ne : ZyxEuler R → ZyxEuler R → Bool
  euler_ne a b = ne a.x b.x || (ne a.y b.y || ne a.z b.z)

  unfoldable pub audio_ne : AudioDevice R → AudioDevice R → Bool
  audio_ne a b =
      not (bytes_eq a.drivername b.drivername)
      || (not (bytes_eq a.devicename b.devicename)
          || (ne a.srate b.srate
              || (not (a.periodsize == b.periodsize)
                  || (not (a.numperiods == b.numperiods) || not (a.priority == b.priority)))))

  -- The `id` is not compared.
  unfoldable pub channel_ne : DeviceChannel R → DeviceChannel R → Bool
  channel_ne a b =
      not (bytes_eq a.sourceport b.sourceport)
      || (ne a.gain b.gain
          || (pos_ne a.position b.position
              || (not (bytes_eq a.directivity b.directivity)
                  || (not (bytes_eq a.name b.name)
                      || not (list_eq plugin_eq a.plugins b.plugins)))))

  -- The loop over the elements of two vectors.
  abbrev pub any_channel_ne : List (DeviceChannel R) → List (DeviceChannel R) → Bool
  any_channel_ne [] ys = false
  any_channel_ne (a ∷ xs) [] = false
  any_channel_ne (a ∷ xs) (b ∷ ys) = channel_ne a b || any_channel_ne xs ys

  unfoldable pub channels_ne : List (DeviceChannel R) → List (DeviceChannel R) → Bool
  channels_ne xs ys = if length xs == length ys then any_channel_ne xs ys else true

  unfoldable pub device_ne : StageDevice R → StageDevice R → Bool
  device_ne a b =
      not (a.id == b.id)
      || (not (bytes_eq a.uid b.uid)
          || (not (bytes_eq a.label b.label)
              || (channels_ne a.channels b.channels
                  || (pos_ne a.position b.position
                      || (euler_ne a.orientation b.orientation
                          || (ne a.gain b.gain
                              || (not (bool_eq a.mute b.mute)
                                  || (ne a.senderjitter b.senderjitter
                                      || (ne a.receiverjitter b.receiverjitter
                                          || (not (bool_eq a.sendlocal b.sendlocal)
                                              || (not (bool_eq a.receivedownmix b.receivedownmix)
                                                  || (not (bool_eq a.senddownmix b.senddownmix)
                                                      || (not (bool_eq a.nozita b.nozita)
                                                          || not (
                                                            bool_eq a.hiresping
                                                            b.hiresping))))))))))))))

  unfoldable pub settings_ne : RenderSettings R → RenderSettings R → Bool
  settings_ne a b =
      not (a.id == b.id)
      || (pos_ne a.roomsize b.roomsize
          || (ne a.absorption b.absorption
              || (ne a.damping b.damping
                  || (ne a.reverbgain b.reverbgain
                      || (ne a.reverbgainroom b.reverbgainroom
                          || (ne a.reverbgaindev b.reverbgaindev
                              || (not (bool_eq a.renderreverb b.renderreverb)
                                  || (not (bool_eq a.renderism b.renderism)
                                      || (not (bool_eq a.distancelaw b.distancelaw)
                                          || (not (bool_eq a.rawmode b.rawmode)
                                              || (not (bool_eq a.receive b.receive)
                                                  || (not (bytes_eq a.rectype b.rectype)
                                                      || (ne a.egogain b.egogain
                                                          || (ne a.outputgain b.outputgain
                                                            || (not
                                                            (bool_eq a.peer2peer b.peer2peer)
                                                            || (not
                                                            (bytes_eq a.outputport1 b.outputport1)
                                                            || (not
                                                            (bytes_eq a.outputport2 b.outputport2)
                                                            || (ne a.secrec b.secrec
                                                            || (not (map_eq a.xports b.xports)
                                                            || (not (
                                                            list_eq (λ p q. p == q) a.xrecport
                                                            b.xrecport)
                                                            || (not
                                                            (bool_eq a.headtracking b.headtracking)
                                                            || (not (
                                                            bool_eq a.headtrackingserial
                                                            b.headtrackingserial)
                                                            || (not (
                                                            bool_eq a.headtrackingrotrec
                                                            b.headtrackingrotrec)
                                                            || (not (
                                                            bool_eq a.headtrackingrotsrc
                                                            b.headtrackingrotsrc)
                                                            || (not (
                                                            a.headtrackingport
                                                            == b.headtrackingport)
                                                            || (not
                                                            (bytes_eq a.ambientsound b.ambientsound)
                                                            || (ne a.ambientlevel b.ambientlevel
                                                            || (ne a.lmetertc b.lmetertc
                                                            || (not (bytes_eq a.lmeterfw b.lmeterfw)
                                                            || (ne a.delaycomp b.delaycomp
                                                            || (ne a.decorr b.decorr
                                                            || (not
                                                            (bool_eq a.usetcptunnel b.usetcptunnel)
                                                            || not (
                                                            bool_eq a.encryption
                                                            b.encryption)))))))))))))))))))))))))))))))))

  -- The loop over the entries of two maps from devices, as far as both go.
  abbrev pub any_entry_ne : List (ℕ × StageDevice R) → List (ℕ × StageDevice R) → Bool
  any_entry_ne [] ys = false
  any_entry_ne (a ∷ xs) [] = false
  any_entry_ne ((i, a) ∷ xs) ((j, b) ∷ ys) = not (i == j) || (device_ne a b || any_entry_ne xs ys)

  unfoldable pub stage_ne : List (ℕ × StageDevice R) → List (ℕ × StageDevice R) → Bool
  stage_ne xs ys = if length xs == length ys then any_entry_ne xs ys else true
