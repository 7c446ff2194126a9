-- ===== src/Prelude/Bytes.antt =====
-- Integers in memory, least significant byte first, and `size_t` arithmetic.
use Prim.Native.Nat.{ℕ, zero, suc, ◌+◌, ◌-◌, ◌*◌, ◌/◌, ◌%◌, ◌^◌, ◌<◌}
use mathlib.Core.Path.{◌≡◌, refl, ap}
use mathlib.Core.List.{List, [], ◌∷◌}
use native.Mathlib.Omega.{arith}
use native.Mathlib.Nat.{pow-suc}
use mathlib.Core.Bool.{Bool, true, false}
use libov.Prelude.Lists.{length}
use libov.Prelude.Tests.{◌==◌, if◌then◌else◌}

-- `memcmp(a, b, n) == 0` for blocks, and `==` of strings, which are lists of bytes.
abbrev pub bytes_eq : List ℕ → List ℕ → Bool
bytes_eq [] [] = true
bytes_eq (x ∷ xs) (y ∷ ys) = if x == y then bytes_eq xs ys else false
bytes_eq [] (y ∷ ys) = false
bytes_eq (x ∷ xs) [] = false

pub bytes_eq_sound : (a b : List ℕ) → bytes_eq a b ≡ true → a ≡ b
bytes_eq_sound [] [] h = refl
bytes_eq_sound [] (y ∷ ys) h = ground arith
bytes_eq_sound (x ∷ xs) [] h = ground arith
bytes_eq_sound (x ∷ xs) (y ∷ ys) h = ground (arith, bytes_eq_sound xs ys)

pub bytes_eq_refl : (a : List ℕ) → bytes_eq a a ≡ true
bytes_eq_refl [] = refl
bytes_eq_refl (x ∷ xs) = ground (arith, bytes_eq_refl xs)

-- `size_t` sums and differences wrap.
abbrev pub add_size : ℕ → ℕ → ℕ
add_size a b = (a + b) % 2 ^ 64

abbrev pub sub_size : ℕ → ℕ → ℕ
sub_size a b = (a + 2 ^ 64 - b) % 2 ^ 64

unfoldable pub le_bytes : ℕ → ℕ → List ℕ
le_bytes zero v = []
le_bytes (suc w) v = (v % 256) ∷ le_bytes w (v / 256)

unfoldable pub le_value : List ℕ → ℕ
le_value [] = 0
le_value (b ∷ bs) = b + 256 * le_value bs

pub length-le_bytes : (w v : ℕ) → length (le_bytes w v) ≡ w
unfolding le_bytes
length-le_bytes zero v = refl
length-le_bytes (suc w) v = ap suc (length-le_bytes w (v / 256))

pub le_value-le_bytes : (w v : ℕ) → v < 256 ^ w → le_value (le_bytes w v) ≡ v
unfolding le_value le_bytes
le_value-le_bytes zero v h = omega arith
le_value-le_bytes (suc w) v h = omega (arith, pow-suc 256 w, le_value-le_bytes w (v / 256))
