-- ===== src/Lobby/Answer.antt =====
-- The answer of the lobby server in `device_update` (src/ov_client_orlandoviols.cc): a line with a hash
-- code, and the configuration.
use libov.Prelude.{
  ℕ, ◌≡◌, ◌≢◌, refl, ap, ◌∙◌, Bool, false, Option, none, some, List, [], ◌∷◌, ◌++◌, ◌==◌,
  if◌then◌else◌, arith, chosen,
}
use libov.Message.{Bytes}

abbrev newline : ℕ
newline = 10

-- The lines that std::getline reads.
abbrev pub add_first : ℕ → List Bytes → List Bytes
add_first c [] = (c ∷ []) ∷ []
add_first c (l ∷ ls) = (c ∷ l) ∷ ls

unfoldable pub lines : Bytes → List Bytes
lines [] = []
lines (c ∷ s) = let rest = lines s in if c == newline then [] ∷ rest else add_first c rest

-- The lines with a newline after each, but for the last newline.
abbrev pub join_lines : List Bytes → Bytes
join_lines [] = []
join_lines (l ∷ []) = l
join_lines (l ∷ ls) = l ++ newline ∷ join_lines ls

abbrev pub is_markup : Bytes → Bool
is_markup [] = false
is_markup (c ∷ l) = c == b'<'

-- The hash code and the configuration. Without an answer the hash code stays, and there is none; what
-- begins like a page of HTML is an exception.
abbrev pub take_lines : Bytes → List Bytes → Option (Bytes × Bytes)
take_lines hash [] = some (hash, [])
take_lines hash (first ∷ rest) = if is_markup first then none else some (first, join_lines rest)

unfoldable pub device_answer : Bytes → Bytes → Option (Bytes × Bytes)
device_answer hash answer = take_lines hash (lines answer)

-- A text without a newline, and one that does not end with a newline.
abbrev pub IsLine : Bytes → Type 0
IsLine [] = Unit
IsLine (c ∷ s) = (c ≢ 10) × IsLine s

abbrev pub IsClosed : Bytes → Type 0
IsClosed [] = Unit
IsClosed (c ∷ []) = c ≢ 10
IsClosed (c ∷ s) = IsClosed s

lines-hash : (h s : Bytes) → IsLine h → lines (h ++ newline ∷ s) ≡ h ∷ lines s
unfolding lines
lines-hash [] s l = refl
lines-hash (c ∷ h) s l = ground (arith, lines-hash h s l.1, l.0)

-- Where a text begins with no newline, a first line is there.
join-add_first : (c : ℕ) (ls : List Bytes) → join_lines (add_first c ls) ≡ c ∷ join_lines ls
join-add_first c [] = refl
join-add_first c (l ∷ []) = refl
join-add_first c (l ∷ m ∷ ls) = refl

join-empty_first : (ls : List Bytes) → ls ≢ [] → join_lines ([] ∷ ls) ≡ 10 ∷ join_lines ls
join-empty_first [] h = absurd (h refl)
join-empty_first (l ∷ ls) h = refl

lines_some : (c : ℕ) (s : Bytes) → lines (c ∷ s) ≢ []
unfolding lines
lines_some c s =
    chosen (λ ls. ls ≢ []) (c == newline) ([] ∷ lines s) (add_first c (lines s))
      (λ broken h. ground arith) (λ plain. first_some (lines s))
  where
    first_some : (ls : List Bytes) → add_first c ls ≢ []
    first_some [] h = ground arith
    first_some (l ∷ ls) h = ground arith

join-lines : (s : Bytes) → IsClosed s → join_lines (lines s) ≡ s
unfolding lines
join-lines [] h = refl
join-lines (c ∷ []) h = ground (arith, h)
join-lines (c ∷ d ∷ s) h =
    chosen (λ ls. join_lines ls ≡ c ∷ d ∷ s) (c == newline) ([] ∷ lines (d ∷ s))
      (add_first c (lines (d ∷ s)))
      (λ broken.
        join-empty_first (lines (d ∷ s)) (lines_some d s)
        ∙ ground (arith, broken, join-lines (d ∷ s) h))
      (λ plain. join-add_first c (lines (d ∷ s)) ∙ ap (◌∷◌ c) (join-lines (d ∷ s) h))

-- A hash code of one line that is not like a page of HTML, a newline, and a configuration that does not
-- end with a newline: both are read as they were sent.
pub device_answer-join :
    (old h cfg : Bytes)
    → IsLine h
    → is_markup h ≡ false
    → IsClosed cfg
    → device_answer old (h ++ 10 ∷ cfg) ≡ some (h, cfg)
unfolding device_answer
device_answer-join old h cfg l m c = rw (lines-hash h cfg l, m, join-lines cfg c) refl
