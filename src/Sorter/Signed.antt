-- ===== src/Sorter/Signed.antt =====
-- `sequence_t` (int16_t) by its bit pattern: the order, the wrapping difference, and the sign
-- extension of the usual arithmetic conversions.
use libov.Prelude.{ℕ, ◌+◌, ◌-◌, ◌%◌, ◌^◌, Bool, leb, ltb, if◌then◌else◌}

abbrev pub minus_one : ℕ
minus_one = 0xffff

abbrev pub is_neg : ℕ → Bool
is_neg d = leb 0x8000 d

-- a < b, as signed numbers.
abbrev pub slt : ℕ → ℕ → Bool
slt a b = ltb ((a + 0x8000) % 0x10000) ((b + 0x8000) % 0x10000)

-- `(sequence_t)(a - b)`.
abbrev pub diff16 : ℕ → ℕ → ℕ
diff16 a b = (a + 0x10000 - b) % 0x10000

-- As a `size_t`.
abbrev pub extend : ℕ → ℕ
extend d = if is_neg d then d + (2 ^ 64 - 0x10000) else d
