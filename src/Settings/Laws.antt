-- ===== src/Settings/Laws.antt =====
-- What the operators `!=` say of their operands.
use mathlib.Core.Bool.{xor}
use mathlib.Core.Path.{ap₂}
use libov.Prelude.{
  ℕ, suc, ◌≡◌, ◌↔◌, refl, ap, sym, ◌∙◌, Bool, true, false, List, [], ◌∷◌, ◌==◌, length, map, arith,
  bytes_eq_sound, bytes_eq_refl,
}
use libov.Real.{RealOps}
use libov.Message.{Bytes}
use libov.Settings.{Pos, ZyxEuler, AudioDevice, ChannelPlugin, DeviceChannel, StageDevice}
use libov.Settings.Differ.{
  list_eq, bool_eq, entry_eq, plugin_eq, ne, pos_ne, euler_ne, audio_ne, channel_ne, any_channel_ne,
  channels_ne, device_ne, any_entry_ne, stage_ne,
}

-- Equality of floats is that of the values: there is no NaN, and one zero.
pub record IsExact {R : Type 0} (real : RealOps R) : Type 0 where
  pub eq_iff : (a b : R) → (real.eq a b ≡ true) ↔ (a ≡ b)

module _ {R : Type 0} where
  -- A channel without its identifier, which no operator compares.
  abbrev pub anonymous_channel : DeviceChannel R → DeviceChannel R
  anonymous_channel c = record c { id = [] }

  abbrev pub anonymous : StageDevice R → StageDevice R
  anonymous d = record d { channels = map anonymous_channel d.channels }

bool_eq_sound : (a b : Bool) → bool_eq a b ≡ true → a ≡ b
unfolding bool_eq xor
bool_eq_sound true true h = refl
bool_eq_sound true false h = cc
bool_eq_sound false true h = cc
bool_eq_sound false false h = refl

bool_eq_refl : (a : Bool) → bool_eq a a ≡ true
unfolding bool_eq xor
bool_eq_refl true = refl
bool_eq_refl false = refl

same_number : (a : ℕ) → (a == a) ≡ true
same_number a = ground arith

pub list_eq_sound :
    {A : Type 0} (eq : A → A → Bool) (sound : (a b : A) → eq a b ≡ true → a ≡ b) (xs ys : List A)
    → list_eq eq xs ys ≡ true
    → xs ≡ ys
list_eq_sound eq sound [] [] h = refl
list_eq_sound eq sound [] (y ∷ ys) h = ground arith
list_eq_sound eq sound (x ∷ xs) [] h = ground arith
list_eq_sound eq sound (x ∷ xs) (y ∷ ys) h = ground (arith, sound x y, list_eq_sound eq sound xs ys)

list_eq_refl :
    {A : Type 0} (eq : A → A → Bool) (refl_eq : (a : A) → eq a a ≡ true) (xs : List A)
    → list_eq eq xs xs ≡ true
list_eq_refl eq refl_eq [] = refl
list_eq_refl eq refl_eq (x ∷ xs) = ground (arith, refl_eq x, list_eq_refl eq refl_eq xs)

entry_eq_sound : (a b : Bytes × Bytes) → entry_eq a b ≡ true → a ≡ b
entry_eq_sound (k, v) (k', v') h = ground (arith, bytes_eq_sound k k', bytes_eq_sound v v')

entry_eq_refl : (a : Bytes × Bytes) → entry_eq a a ≡ true
entry_eq_refl (k, v) = ground (arith, bytes_eq_refl k, bytes_eq_refl v)

plugin_eq_sound : (a b : ChannelPlugin) → plugin_eq a b ≡ true → a ≡ b
unfolding plugin_eq
plugin_eq_sound a b h =
    ground
      (arith, bytes_eq_sound a.name b.name, list_eq_sound entry_eq entry_eq_sound a.params b.params)

plugin_eq_refl : (a : ChannelPlugin) → plugin_eq a a ≡ true
unfolding plugin_eq
plugin_eq_refl a =
    ground (arith, bytes_eq_refl a.name, list_eq_refl entry_eq entry_eq_refl a.params)

module _ {R : Type 0} (real : RealOps R) (exact : IsExact real) where
  real_sound : (a b : R) → ne real a b ≡ false → a ≡ b
  real_sound a b h = (exact.eq_iff a b).0 (ground arith)

  real_refl : (a : R) → ne real a a ≡ false
  real_refl a = ground (arith, (exact.eq_iff a a).1 refl)

  pos_ne_sound : (a b : Pos R) → pos_ne real a b ≡ false → a ≡ b
  unfolding pos_ne
  pos_ne_sound a b h = ground (arith, real_sound a.x b.x, real_sound a.y b.y, real_sound a.z b.z)

  pos_ne_refl : (a : Pos R) → pos_ne real a a ≡ false
  unfolding pos_ne
  pos_ne_refl a = ground (arith, real_refl a.x, real_refl a.y, real_refl a.z)

  euler_ne_sound : (a b : ZyxEuler R) → euler_ne real a b ≡ false → a ≡ b
  unfolding euler_ne
  euler_ne_sound a b h = ground (arith, real_sound a.x b.x, real_sound a.y b.y, real_sound a.z b.z)

  euler_ne_refl : (a : ZyxEuler R) → euler_ne real a a ≡ false
  unfolding euler_ne
  euler_ne_refl a = ground (arith, real_refl a.x, real_refl a.y, real_refl a.z)

  channel_ne_sound :
      (a b : DeviceChannel R)
      → channel_ne real a b ≡ false
      → anonymous_channel a ≡ anonymous_channel b
  unfolding channel_ne
  channel_ne_sound a b h = ground (
    arith,
    bytes_eq_sound a.sourceport b.sourceport,
    real_sound a.gain b.gain,
    pos_ne_sound a.position b.position,
    bytes_eq_sound a.directivity b.directivity,
    bytes_eq_sound a.name b.name,
    list_eq_sound plugin_eq plugin_eq_sound a.plugins b.plugins,
  )

  any_channel_ne_sound :
      (xs ys : List (DeviceChannel R))
      → length xs ≡ length ys
      → any_channel_ne real xs ys ≡ false
      → map anonymous_channel xs ≡ map anonymous_channel ys
  any_channel_ne_sound [] [] e h = refl
  any_channel_ne_sound [] (y ∷ ys) e h = absurd (omega (arith, e))
  any_channel_ne_sound (x ∷ xs) [] e h = absurd (omega (arith, e))
  any_channel_ne_sound (x ∷ xs) (y ∷ ys) e h =
      ground (arith, channel_ne_sound x y, any_channel_ne_sound xs ys)

  channels_ne_sound :
      (xs ys : List (DeviceChannel R))
      → channels_ne real xs ys ≡ false
      → map anonymous_channel xs ≡ map anonymous_channel ys
  unfolding channels_ne
  channels_ne_sound xs ys h = ground (arith, any_channel_ne_sound xs ys)

  channel_ne_refl : (a : DeviceChannel R) → channel_ne real a a ≡ false
  unfolding channel_ne
  channel_ne_refl a = ground (
    arith,
    bytes_eq_refl a.sourceport,
    real_refl a.gain,
    pos_ne_refl a.position,
    bytes_eq_refl a.directivity,
    bytes_eq_refl a.name,
    list_eq_refl plugin_eq plugin_eq_refl a.plugins,
  )

  any_channel_ne_refl : (xs : List (DeviceChannel R)) → any_channel_ne real xs xs ≡ false
  any_channel_ne_refl [] = refl
  any_channel_ne_refl (x ∷ xs) = ground (arith, channel_ne_refl x, any_channel_ne_refl xs)

  channels_ne_refl : (xs : List (DeviceChannel R)) → channels_ne real xs xs ≡ false
  unfolding channels_ne
  channels_ne_refl xs = ground (arith, any_channel_ne_refl xs)

  -- The identifiers of the channels make no difference.
  any_channel_ne-anonymous :
      (xs ys : List (DeviceChannel R))
      → any_channel_ne real (map anonymous_channel xs) (map anonymous_channel ys)
        ≡ any_channel_ne real xs ys
  unfolding channel_ne
  any_channel_ne-anonymous [] ys = refl
  any_channel_ne-anonymous (x ∷ xs) [] = refl
  any_channel_ne-anonymous (x ∷ xs) (y ∷ ys) = rw (any_channel_ne-anonymous xs ys) refl

  length-anonymous : (xs : List (DeviceChannel R)) → length (map anonymous_channel xs) ≡ length xs
  length-anonymous [] = refl
  length-anonymous (x ∷ xs) = ap suc (length-anonymous xs)

  device_ne-anonymous :
      (a b : StageDevice R) → device_ne real (anonymous a) (anonymous b) ≡ device_ne real a b
  unfolding device_ne channels_ne
  device_ne-anonymous a b =
      rw
        (
          length-anonymous a.channels,
          length-anonymous b.channels,
          any_channel_ne-anonymous a.channels b.channels,
        )
        refl

  device_ne_refl : (a : StageDevice R) → device_ne real a a ≡ false
  unfolding device_ne
  device_ne_refl a =
      rw
        (
          same_number a.id,
          bytes_eq_refl a.uid,
          bytes_eq_refl a.label,
          channels_ne_refl a.channels,
          pos_ne_refl a.position,
          euler_ne_refl a.orientation,
          real_refl a.gain,
          bool_eq_refl a.mute,
          real_refl a.senderjitter,
          real_refl a.receiverjitter,
          bool_eq_refl a.sendlocal,
          bool_eq_refl a.receivedownmix,
          bool_eq_refl a.senddownmix,
          bool_eq_refl a.nozita,
          bool_eq_refl a.hiresping,
        )
        refl

  device_ne_sound : (a b : StageDevice R) → device_ne real a b ≡ false → anonymous a ≡ anonymous b
  unfolding device_ne
  device_ne_sound a b h = ground (
    arith,
    bytes_eq_sound a.uid b.uid,
    bytes_eq_sound a.label b.label,
    channels_ne_sound a.channels b.channels,
    pos_ne_sound a.position b.position,
    euler_ne_sound a.orientation b.orientation,
    real_sound a.gain b.gain,
    real_sound a.senderjitter b.senderjitter,
    real_sound a.receiverjitter b.receiverjitter,
    bool_eq_sound a.mute b.mute,
    bool_eq_sound a.sendlocal b.sendlocal,
    bool_eq_sound a.receivedownmix b.receivedownmix,
    bool_eq_sound a.senddownmix b.senddownmix,
    bool_eq_sound a.nozita b.nozita,
    bool_eq_sound a.hiresping b.hiresping,
  )

  -- Two stage devices are told apart by `!=` exactly if they differ in anything but the identifiers
  -- of their channels, as long as equality of floats is that of their values.
  pub device_ne_iff :
      (a b : StageDevice R) → (device_ne real a b ≡ false) ↔ (anonymous a ≡ anonymous b)
  device_ne_iff a b = (
    device_ne_sound a b,
    λ e.
        sym (device_ne-anonymous a b)
        ∙ ap (λ d. device_ne real d (anonymous b)) e
        ∙ device_ne_refl (anonymous b),
  )

  audio_ne_sound : (a b : AudioDevice R) → audio_ne real a b ≡ false → a ≡ b
  unfolding audio_ne
  audio_ne_sound a b h = ground (
    arith,
    bytes_eq_sound a.drivername b.drivername,
    bytes_eq_sound a.devicename b.devicename,
    real_sound a.srate b.srate,
  )

  audio_ne_refl : (a : AudioDevice R) → audio_ne real a a ≡ false
  unfolding audio_ne
  audio_ne_refl a =
      ground (arith, bytes_eq_refl a.drivername, bytes_eq_refl a.devicename, real_refl a.srate)

  -- Two audio devices are told apart exactly if they differ.
  pub audio_ne_iff : (a b : AudioDevice R) → (audio_ne real a b ≡ false) ↔ (a ≡ b)
  audio_ne_iff a b = (audio_ne_sound a b, λ e. ap (λ d. audio_ne real d b) e ∙ audio_ne_refl b)

-- An entry of a stage without the identifiers of channels and the gain.
abbrev pub anonymous_entry : {R : Type 0} → R → ℕ × StageDevice R → ℕ × StageDevice R
anonymous_entry zero (k, d) =
    (k, record d { channels = map anonymous_channel d.channels; gain = zero })

module _ {R : Type 0} (real : RealOps R) (exact : IsExact real) (none : R) where
  any_entry_ne_sound :
      (xs ys : List (ℕ × StageDevice R))
      → length xs ≡ length ys
      → any_entry_ne real xs ys ≡ false
      → map (anonymous_entry none) xs ≡ map (anonymous_entry none) ys
  any_entry_ne_sound [] [] e h = refl
  any_entry_ne_sound [] (y ∷ ys) e h = absurd (omega (arith, e))
  any_entry_ne_sound (x ∷ xs) [] e h = absurd (omega (arith, e))
  any_entry_ne_sound ((i, a) ∷ xs) ((j, b) ∷ ys) e h =
      let same : i ≡ j = ground arith in
      let rest = any_entry_ne_sound xs ys (omega (arith, e)) (ground arith) in
      let device = (device_ne_iff real exact a b).0 (ground arith) in
      ap₂ ◌∷◌ (λ k. (same k, (ap (λ (d : StageDevice R). record d { gain = none }) device) k)) rest

  -- Two stages that `!=` does not tell apart agree, but for the identifiers of channels.
  pub stage_ne_sound :
      (xs ys : List (ℕ × StageDevice R))
      → stage_ne real xs ys ≡ false
      → map (anonymous_entry none) xs ≡ map (anonymous_entry none) ys
  unfolding stage_ne
  stage_ne_sound xs ys h = any_entry_ne_sound xs ys (ground arith) (ground arith)
