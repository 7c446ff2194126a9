-- ===== src/Tools.antt =====
-- Strings: `ovstrrep` of src/ov_tools.cc. A string is the list of its bytes.
pub mod Replace
mod Tests
use libov.Prelude.{
  ℕ, zero, suc, ◌+◌, Bool, true, false, ◌&&◌, Option, none, some, List, [], ◌∷◌, ◌++◌, ltb, ◌==◌,
  if◌then◌else◌, length, take, drop,
}
use libov.Message.{Bytes}

abbrev pub starts_with : Bytes → Bytes → Bool
starts_with [] s = true
starts_with (p ∷ pat) [] = false
starts_with (p ∷ pat) (c ∷ s) = if p == c then starts_with pat s else false

abbrev pub next_position : Option ℕ → Option ℕ
next_position none = none
next_position (some n) = some (suc n)

-- `std::string::find`, as its manual describes it: the first position, or `none` for npos.
abbrev pub find : Bytes → Bytes → Option ℕ
find pat [] = if starts_with pat [] then some 0 else none
find pat (c ∷ s) = if starts_with pat (c ∷ s) then some 0 else next_position (find pat s)

-- The loop, with the string that is left and `out_string`. `none` has not ended within the fuel.
unfoldable pub replace_loop : ℕ → Bytes → Bytes → Bytes → Bytes → Option Bytes
replace_loop zero s out pat rep = none
replace_loop (suc fuel) s out pat rep = elim (find pat s) [
  | none ↦ some (out ++ s)
  | some pos ↦
      let rest =
        replace_loop fuel (drop (pos + length pat) s) (out ++ (take pos s ++ rep)) pat rep in
      if ltb pos (length s) then rest else some (out ++ s)
]

-- A turn takes a byte off the string at least, where the pattern is not empty.
unfoldable pub ovstrrep : Bytes → Bytes → Bytes → Option Bytes
ovstrrep s pat rep = replace_loop (suc (length s)) s [] pat rep
