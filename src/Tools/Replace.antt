-- ===== src/Tools/Replace.antt =====
-- `ovstrrep` against a single scan of the string.
use mathlib.Core.List.{append_assoc}
use libov.Prelude.{
  ℕ, zero, suc, ◌+◌, ◌-◌, ◌<◌, ◌≡◌, ◌∙◌, refl, ap, sym, Bool, true, false, Option, none, some, [],
  ◌∷◌, ◌++◌, ltb, if◌then◌else◌, length, take, drop, length-drop, arith, lt→ltb,
}
use libov.Message.{Bytes}
use libov.Tools.{starts_with, next_position, find, replace_loop, ovstrrep}

-- Every byte is passed on, but an occurrence of the pattern, from left to right, becomes the
-- replacement. The first argument counts the bytes of an occurrence that are still to be skipped.
abbrev pub scan : ℕ → Bytes → Bytes → Bytes → Bytes
scan k pat rep [] = []
scan (suc k) pat rep (c ∷ s) = scan k pat rep s
scan zero pat rep (c ∷ s) =
    if starts_with pat (c ∷ s) then rep ++ scan (length pat - 1) pat rep s else c ∷ scan 0 pat rep s

module _ (p : ℕ) (ps rep : Bytes) where
  abbrev pat : Bytes
  pat = p ∷ ps

  scan_skips : (k : ℕ) (s : Bytes) → scan k pat rep s ≡ scan 0 pat rep (drop k s)
  scan_skips zero s = refl
  scan_skips (suc k) [] = refl
  scan_skips (suc k) (c ∷ s) = scan_skips k s

  scan_here :
      (c : ℕ) (s : Bytes)
      → starts_with pat (c ∷ s) ≡ true
      → scan 0 pat rep (c ∷ s) ≡ rep ++ scan 0 pat rep (drop (0 + length pat) (c ∷ s))
  scan_here c s here =
      let less : length pat - 1 ≡ length ps = omega arith in
      let none_more : length pat ≡ 0 + length pat = omega arith in
      rw here (
        ap (λ t. rep ++ t)
          (ap (λ k. scan k pat rep s) less
            ∙ scan_skips (length ps) s
            ∙ ap (λ n. scan 0 pat rep (drop n (c ∷ s))) none_more))

  scan_later :
      (c : ℕ) (s : Bytes)
      → starts_with pat (c ∷ s) ≡ false
      → scan 0 pat rep (c ∷ s) ≡ c ∷ scan 0 pat rep s
  scan_later c s later = rw later refl

  -- What the first occurrence says of the scan.
  Found : Bytes → Option ℕ → Type 0
  Found s none = scan 0 pat rep s ≡ s
  Found s (some pos) =
      (pos < length s)
      × (scan 0 pat rep s ≡ take pos s ++ (rep ++ scan 0 pat rep (drop (pos + length pat) s)))

  -- An occurrence behind the first byte.
  Found-next :
      (c : ℕ) (s : Bytes) (o : Option ℕ)
      → starts_with pat (c ∷ s) ≡ false
      → Found s o
      → Found (c ∷ s) (next_position o)
  unfolding Found
  Found-next c s none later e = scan_later c s later ∙ ap (λ t. c ∷ t) e
  Found-next c s (some pos) later (lo, e) =
      let further : suc (pos + length pat) ≡ suc pos + length pat = omega arith in
      (
        omega (arith, lo),
        scan_later c s later
            ∙ ap (λ t. c ∷ t) e
            ∙ ap (λ n. c ∷ (take pos s ++ (rep ++ scan 0 pat rep (drop n (c ∷ s))))) further,
      )

  find-Found : (s : Bytes) → Found s (find pat s)
  unfolding Found
  find-Found [] = refl
  find-Found (c ∷ s) = go (starts_with pat (c ∷ s)) refl (find pat s) (find-Found s)
    where
      go :
          (b : Bool)
          → starts_with pat (c ∷ s) ≡ b
          → (o : Option ℕ) → Found s o
          → Found (c ∷ s) (if b then some 0 else next_position o)
      go true here o f = (omega arith, scan_here c s here)
      go false later o f = Found-next c s o later f

  replace_loop-scan :
      (fuel : ℕ) (s out : Bytes)
      → length s < fuel
      → replace_loop fuel s out pat rep ≡ some (out ++ scan 0 pat rep s)
  unfolding replace_loop Found
  replace_loop-scan zero s out h = absurd (omega (arith, h))
  replace_loop-scan (suc fuel) s out h =
      go (find pat s) (find-Found s) (λ n out' k. replace_loop-scan fuel (drop n s) out' k)
    where
      go :
          (o : Option ℕ)
          → Found s o
          → ((n : ℕ) (out' : Bytes)
              → length (drop n s) < fuel
              → replace_loop fuel (drop n s) out' pat rep
                ≡ some (out' ++ scan 0 pat rep (drop n s)))
          → elim o [
            | none ↦ some (out ++ s)
            | some pos ↦
                if ltb pos (length s)
                then replace_loop fuel
                    (drop (pos + length pat) s)
                    (out ++ (take pos s ++ rep))
                    pat
                    rep
                else some (out ++ s)
          ]
            ≡ some (out ++ scan 0 pat rep s)
      go none e again = ap (λ t. some (out ++ t)) (sym e)
      go (some pos) (lo, e) again =
          rw
            (
              lt→ltb pos (length s) lo,
              again (pos + length pat) (out ++ (take pos s ++ rep))
                  (omega (arith, h, length-drop (pos + length pat) s)),
            )
            (ap some (
              append_assoc out (take pos s ++ rep) (scan 0 pat rep (drop (pos + length pat) s))
              ∙ ap (λ t. out ++ t)
                  (append_assoc (take pos s) rep (scan 0 pat rep (drop (pos + length pat) s))
                    ∙ sym e)))

  -- For a pattern that is not empty, `ovstrrep` ends, and its result is that of a single scan that
  -- replaces every occurrence from left to right.
  pub ovstrrep-scan : (s : Bytes) → ovstrrep s pat rep ≡ some (scan 0 pat rep s)
  unfolding ovstrrep
  ovstrrep-scan s = replace_loop-scan (suc (length s)) s [] (omega arith)

-- With an empty pattern and a string that is not empty, the loop never ends, however long it runs.
pub replace_loop_stuck :
    (fuel c : ℕ) (s out rep : Bytes) → replace_loop fuel (c ∷ s) out [] rep ≡ none
unfolding replace_loop
replace_loop_stuck zero c s out rep = refl
replace_loop_stuck (suc fuel) c s out rep =
    rw (lt→ltb 0 (suc (length s)) (omega arith))
      (replace_loop_stuck fuel c s (out ++ ([] ++ rep)) rep)
