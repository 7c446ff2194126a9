-- ===== src/Settings/Tests.antt =====
-- Settings on concrete values; numbers stand for floats.
use mathlib.Core.Bool.{xor}
use libov.Prelude.{ℕ, ◌≡◌, ◌↔◌, refl, false, List, [], ◌∷◌, ==_iff}
use libov.Real.{nat_real}
use libov.Settings.{DeviceChannel, StageDevice, default_pos, default_device}
use libov.Settings.Differ.{bool_eq, pos_ne, euler_ne, channel_ne, channels_ne, device_ne}
use libov.Settings.Laws.{IsExact, anonymous, device_ne_iff}

nat-IsExact : IsExact nat_real
nat-IsExact = record { eq_iff = ==_iff }

abbrev channel : List ℕ → DeviceChannel ℕ
channel id = record {
  id = id;
  sourceport = b's' ∷ [];
  gain = 1;
  position = default_pos nat_real;
  directivity = [];
  plugins = [];
  name = [];
}

-- A device with one channel of this identifier.
abbrev device : List ℕ → StageDevice ℕ
device id = record (default_device nat_real) { channels = channel id ∷ [] }

-- The identifiers of channels are not compared, the gain is.
ids_are_equal : device_ne nat_real (device (1 ∷ [])) (device (2 ∷ [])) ≡ false
unfolding device_ne channels_ne channel_ne pos_ne euler_ne bool_eq xor
ids_are_equal = refl

device_ne_iff_example :
    (device_ne nat_real (device (1 ∷ [])) (device (2 ∷ [])) ≡ false)
    ↔ (anonymous (device (1 ∷ [])) ≡ anonymous (device (2 ∷ [])))
device_ne_iff_example = device_ne_iff nat_real nat-IsExact (device (1 ∷ [])) (device (2 ∷ []))
