-- ===== src/Prelude/Lists.antt =====
-- Lists measured by native numbers, and memory blocks as lists of bytes: a read is a `slice`, a
-- `memcpy` into a block is `write_at`. A write past the end of the block changes nothing there.
use Prim.Native.Nat.{ℕ, zero, suc, ◌+◌, ◌-◌, ◌≤◌, ◌<◌, min}
use mathlib.Core.Path.{◌≡◌, ◌∙◌, refl, ap, sym}
use mathlib.Core.Logic.{◌≢◌}
use mathlib.Core.List.{List, [], ◌∷◌, ◌++◌}
use mathlib.Core.Option.{Option, none, some}
use native.Mathlib.Omega.{arith}

suc_add : (g m : ℕ) → suc (g + m) ≡ suc g + m
suc_add g m = omega arith

module _ {ℓ} {A : Type ℓ} where
  abbrev pub length : List A → ℕ
  length [] = 0
  length (x ∷ xs) = suc (length xs)

  abbrev pub get_elem? : List A → ℕ → Option A
  get_elem? [] i = none
  get_elem? (x ∷ xs) zero = some x
  get_elem? (x ∷ xs) (suc i) = get_elem? xs i

  abbrev pub get_or : List A → ℕ → A → A
  get_or [] i d = d
  get_or (x ∷ xs) zero d = x
  get_or (x ∷ xs) (suc i) d = get_or xs i d

  abbrev pub set : List A → ℕ → A → List A
  set [] i v = []
  set (x ∷ xs) zero v = v ∷ xs
  set (x ∷ xs) (suc i) v = x ∷ set xs i v

  abbrev pub take : ℕ → List A → List A
  take zero xs = []
  take (suc n) [] = []
  take (suc n) (x ∷ xs) = x ∷ take n xs

  abbrev pub drop : ℕ → List A → List A
  drop zero xs = xs
  drop (suc n) [] = []
  drop (suc n) (x ∷ xs) = drop n xs

  abbrev pub replicate : ℕ → A → List A
  replicate zero a = []
  replicate (suc n) a = a ∷ replicate n a

  pub length-append : (xs ys : List A) → length (xs ++ ys) ≡ length xs + length ys
  length-append [] ys = omega arith
  length-append (x ∷ xs) ys = omega (arith, length-append xs ys)

  pub length-set : (xs : List A) (i : ℕ) (v : A) → length (set xs i v) ≡ length xs
  length-set [] i v = refl
  length-set (x ∷ xs) zero v = refl
  length-set (x ∷ xs) (suc i) v = ap suc (length-set xs i v)

  pub length-replicate : (n : ℕ) (a : A) → length (replicate n a) ≡ n
  length-replicate zero a = refl
  length-replicate (suc n) a = ap suc (length-replicate n a)

  pub length-take : (n : ℕ) (xs : List A) → length (take n xs) ≡ min n (length xs)
  length-take zero xs = omega arith
  length-take (suc n) [] = omega arith
  length-take (suc n) (x ∷ xs) = omega (arith, length-take n xs)

  pub length-drop : (n : ℕ) (xs : List A) → length (drop n xs) ≡ length xs - n
  length-drop zero xs = omega arith
  length-drop (suc n) [] = omega arith
  length-drop (suc n) (x ∷ xs) = omega (arith, length-drop n xs)

  pub take_all : (n : ℕ) (xs : List A) → length xs ≤ n → take n xs ≡ xs
  take_all zero [] h = refl
  take_all zero (x ∷ xs) h = absurd (omega arith)
  take_all (suc n) [] h = refl
  take_all (suc n) (x ∷ xs) h = ap (◌∷◌ x) (take_all n xs (omega arith))

  pub take-append : (xs ys : List A) → take (length xs) (xs ++ ys) ≡ xs
  take-append [] ys = refl
  take-append (x ∷ xs) ys = ap (◌∷◌ x) (take-append xs ys)

  pub drop-append : (xs ys : List A) → drop (length xs) (xs ++ ys) ≡ ys
  drop-append [] ys = refl
  drop-append (x ∷ xs) ys = drop-append xs ys

  pub get_or-set_self :
      (xs : List A) (i : ℕ) (v d : A) → i < length xs → get_or (set xs i v) i d ≡ v
  get_or-set_self [] i v d h = absurd (omega arith)
  get_or-set_self (x ∷ xs) zero v d h = refl
  get_or-set_self (x ∷ xs) (suc i) v d h = get_or-set_self xs i v d (omega arith)

  pub get_or-set_ne :
      (xs : List A) (i j : ℕ) (v d : A) → i ≢ j → get_or (set xs i v) j d ≡ get_or xs j d
  get_or-set_ne [] i j v d h = refl
  get_or-set_ne (x ∷ xs) zero zero v d h = absurd (h refl)
  get_or-set_ne (x ∷ xs) zero (suc j) v d h = refl
  get_or-set_ne (x ∷ xs) (suc i) zero v d h = refl
  get_or-set_ne (x ∷ xs) (suc i) (suc j) v d h = get_or-set_ne xs i j v d (λ e. h (ap suc e))

  -- `n` elements from offset `o` on.
  abbrev pub slice : ℕ → ℕ → List A → List A
  slice o n m = take n (drop o m)

  -- `memcpy(&m[o], bs, length bs)`.
  abbrev pub write_at : ℕ → List A → List A → List A
  write_at zero [] m = m
  write_at zero (b ∷ bs) [] = []
  write_at zero (b ∷ bs) (x ∷ m) = b ∷ write_at zero bs m
  write_at (suc o) bs [] = []
  write_at (suc o) bs (x ∷ m) = x ∷ write_at o bs m

  pub length-write_at : (o : ℕ) (bs m : List A) → length (write_at o bs m) ≡ length m
  length-write_at zero [] m = refl
  length-write_at zero (b ∷ bs) [] = refl
  length-write_at zero (b ∷ bs) (x ∷ m) = ap suc (length-write_at zero bs m)
  length-write_at (suc o) bs [] = refl
  length-write_at (suc o) bs (x ∷ m) = ap suc (length-write_at o bs m)

  pub length-slice : (o n : ℕ) (m : List A) → o + n ≤ length m → length (slice o n m) ≡ n
  length-slice o n m h = omega (arith, length-take n (drop o m), length-drop o m)

  -- What was written is read back.
  pub slice-write_at_self :
      (o : ℕ) (bs m : List A) (n : ℕ)
      → length bs ≡ n
      → o + n ≤ length m
      → slice o n (write_at o bs m) ≡ bs
  slice-write_at_self zero [] m zero e h = refl
  slice-write_at_self zero [] m (suc n) e h = absurd (omega arith)
  slice-write_at_self zero (b ∷ bs) m zero e h = absurd (omega arith)
  slice-write_at_self zero (b ∷ bs) [] (suc n) e h = absurd (omega arith)
  slice-write_at_self zero (b ∷ bs) (x ∷ m) (suc n) e h =
      ap (◌∷◌ b) (slice-write_at_self zero bs m n (omega arith) (omega arith))
  slice-write_at_self (suc o) [] [] zero e h = refl
  slice-write_at_self (suc o) [] [] (suc n) e h = absurd (omega arith)
  slice-write_at_self (suc o) (b ∷ bs) [] n e h = absurd (omega arith)
  slice-write_at_self (suc o) bs (x ∷ m) n e h = slice-write_at_self o bs m n e (omega arith)

  -- A read in front of the written range is not changed.
  pub slice-write_at_before :
      (o p n : ℕ) (bs m : List A) → p + n ≤ o → slice p n (write_at o bs m) ≡ slice p n m
  slice-write_at_before o p zero bs m h = refl
  slice-write_at_before zero p (suc n) bs m h = absurd (omega arith)
  slice-write_at_before (suc o) p (suc n) bs [] h = refl
  slice-write_at_before (suc o) zero (suc n) bs (x ∷ m) h =
      ap (◌∷◌ x) (slice-write_at_before o zero n bs m (omega arith))
  slice-write_at_before (suc o) (suc p) (suc n) bs (x ∷ m) h =
      slice-write_at_before o p (suc n) bs m (omega arith)

  -- Nor is what lies behind it.
  pub drop-write_at_after :
      (o p : ℕ) (bs m : List A) → o + length bs ≤ p → drop p (write_at o bs m) ≡ drop p m
  drop-write_at_after zero p [] m h = refl
  drop-write_at_after zero zero (b ∷ bs) m h = absurd (omega arith)
  drop-write_at_after zero (suc p) (b ∷ bs) [] h = refl
  drop-write_at_after zero (suc p) (b ∷ bs) (x ∷ m) h =
      drop-write_at_after zero p bs m (omega arith)
  drop-write_at_after (suc o) zero bs m h = absurd (omega arith)
  drop-write_at_after (suc o) (suc p) bs [] h = refl
  drop-write_at_after (suc o) (suc p) bs (x ∷ m) h = drop-write_at_after o p bs m (omega arith)

  -- A read inside what was written at the front.
  pub slice-write_at_front :
      (p n : ℕ) (bs m : List A)
      → p + n ≤ length bs
      → length bs ≤ length m
      → slice p n (write_at 0 bs m) ≡ slice p n bs
  slice-write_at_front p zero bs m h k = refl
  slice-write_at_front p (suc n) [] m h k = absurd (omega arith)
  slice-write_at_front p (suc n) (b ∷ bs) [] h k = absurd (omega arith)
  slice-write_at_front zero (suc n) (b ∷ bs) (x ∷ m) h k =
      ap (◌∷◌ b) (slice-write_at_front zero n bs m (omega arith) (omega arith))
  slice-write_at_front (suc p) (suc n) (b ∷ bs) (x ∷ m) h k =
      slice-write_at_front p (suc n) bs m (omega arith) (omega arith)

  pub slice-take : (p n k : ℕ) (m : List A) → p + n ≤ k → slice p n (take k m) ≡ slice p n m
  slice-take p zero k m h = refl
  slice-take p (suc n) zero m h = absurd (omega arith)
  slice-take zero (suc n) (suc k) [] h = refl
  slice-take (suc p) (suc n) (suc k) [] h = refl
  slice-take zero (suc n) (suc k) (x ∷ m) h = ap (◌∷◌ x) (slice-take zero n k m (omega arith))
  slice-take (suc p) (suc n) (suc k) (x ∷ m) h = slice-take p (suc n) k m (omega arith)

  -- A prefix, and what is left of a list, in two parts.
  take_nil : (n : ℕ) → take n [] ≡ []
  take_nil zero = refl
  take_nil (suc n) = refl

  drop_nil : (n : ℕ) → drop n [] ≡ []
  drop_nil zero = refl
  drop_nil (suc n) = refl

  pub take-drop : (g m : ℕ) (s : List A) → take g s ++ take m (drop g s) ≡ take (g + m) s
  take-drop zero m s = ap (λ n. take n s) (omega arith)
  take-drop (suc g) m [] = take_nil m ∙ sym (take_nil (suc g + m))
  take-drop (suc g) m (x ∷ s) =
      ap (◌∷◌ x) (take-drop g m s) ∙ ap (λ n. take n (x ∷ s)) (suc_add g m)

  pub drop-drop : (g m : ℕ) (s : List A) → drop m (drop g s) ≡ drop (g + m) s
  drop-drop zero m s = ap (λ n. drop n s) (omega arith)
  drop-drop (suc g) m [] = drop_nil m ∙ sym (drop_nil (suc g + m))
  drop-drop (suc g) m (x ∷ s) = drop-drop g m s ∙ ap (λ n. drop n (x ∷ s)) (suc_add g m)

  -- A read in two parts.
  pub slice-append : (o a b : ℕ) (m : List A) → slice o a m ++ slice (o + a) b m ≡ slice o (a + b) m
  slice-append o a b m =
      ap (λ r. slice o a m ++ take b r) (sym (drop-drop o a m)) ∙ take-drop a b (drop o m)
