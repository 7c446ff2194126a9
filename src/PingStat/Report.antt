-- ===== src/PingStat/Report.antt =====
-- The report on the last values: no access is out of bounds, and the least of them is reported.
use mathlib.Core.Path.{subst}
use libov.Prelude.{
  ◌≢◌, ℕ, zero, suc, ◌+◌, ◌-◌, ◌%◌, ◌≤◌, ◌<◌, ◌≡◌, ◌∙◌, refl, ap, sym, true, false, Option, none,
  some, List, [], ◌∷◌, ◌==◌, if◌then◌else◌, length, get_elem?, take, length-take, arith, chosen,
  inl, inr, Bool-cases,
}
use libov.Real.{RealOps}
use libov.PingStat.{
  Collector, PingStat, median_index, p99_index, insert, sort, median, count_pings, update_ping_stat,
}
use libov.PingStat.Window.{HoldsLast}

median_index-lt : (f : ℕ) → 0 < f → median_index f < f
unfolding median_index
median_index-lt f h = omega arith

p99_index-lt : (f : ℕ) → 0 < f → p99_index f < f
unfolding p99_index
p99_index-lt f h = omega arith

none-some : {A : Type 0} (a : A) → none ≢ some a
none-some a e = cc

abbrev pub IsSome : {A : Type 0} → Option A → Type 0
IsSome {A} o = (a : A) × (o ≡ some a)

get_elem?-lt : {A : Type 0} (xs : List A) (i : ℕ) → i < length xs → IsSome (get_elem? xs i)
get_elem?-lt [] i h = absurd (omega (arith, h))
get_elem?-lt (x ∷ xs) zero h = (x, refl)
get_elem?-lt (x ∷ xs) (suc i) h = get_elem?-lt xs i (omega (arith, h))

and_then :
    {A B : Type 0} (o : Option A) (k : A → Option B)
    → IsSome o
    → ((a : A) → IsSome (k a))
    → IsSome (elim o [ none ↦ none | some a ↦ k a ])
and_then none k (a, e) h = absurd (none-some a e)
and_then (some b) k (a, e) h = h b

from_some : {A : Type 0} → A → Option A → A
from_some a none = a
from_some a (some b) = b

-- A result with a property.
abbrev pub Finds : {A : Type 0} → (A → Type 0) → Option A → Type 0
Finds {A} Q o = (a : A) × ((o ≡ some a) × Q a)

pub go_on :
    {A B : Type 0} (Q : B → Type 0) (o : Option A) (k : A → Option B) (a : A)
    → o ≡ some a
    → Finds Q (k a)
    → Finds Q (elim o [ none ↦ none | some x ↦ k x ])
unfolding from_some
go_on Q none k a e h = absurd (none-some a e)
go_on Q (some b) k a e h = subst (λ x. Finds Q (k x)) (sym (ap (from_some b) e)) h

-- The neighbour of the median of an even number of values.
median_next :
    (f n : ℕ)
    → 0 < f
    → n ≡ f
    → (f % 2 == 0) ≡ true
    → (if median_index f == 0 then median_index f + 1 else median_index f - 1) < n
unfolding median_index
median_next f n h e even = ground (arith, h, e, even)

-- `<` on the floats that occur: no NaN is among them.
pub record IsOrder {R : Type 0} (real : RealOps R) : Type 0 where
  pub lt_asym : (a b : R) → real.lt a b ≡ true → real.lt b a ≡ false
  pub ge_trans : (a b c : R) → real.lt b a ≡ false → real.lt c b ≡ false → real.lt c a ≡ false

module _ {R : Type 0} (real : RealOps R) where
  length-insert : (x : R) (ys : List R) → length (insert real x ys) ≡ suc (length ys)
  length-insert x [] = refl
  length-insert x (y ∷ ys) = ground (arith, length-insert x ys)

  length-sort : (xs : List R) → length (sort real xs) ≡ length xs
  length-sort [] = refl
  length-sort (x ∷ xs) = length-insert x (sort real xs) ∙ ap suc (length-sort xs)

  -- No value is less than this one.
  abbrev pub IsLeast : R → List R → Type 0
  IsLeast m [] = Unit
  IsLeast m (x ∷ xs) = (real.lt x m ≡ false) × IsLeast m xs

  median-IsSome : (f : ℕ) (sb : List R) → 0 < f → length sb ≡ f → IsSome (median real f sb)
  unfolding median
  median-IsSome f sb h e =
      and_then (get_elem? sb (median_index f)) (λ m. _)
        (get_elem?-lt sb (median_index f) (omega (arith, e, median_index-lt f h)))
        (λ m.
          chosen IsSome (f % 2 == 0) _ _
            (λ even.
              let next = if median_index f == 0 then median_index f + 1 else median_index f - 1 in
              and_then (get_elem? sb next) (λ k. _)
                (get_elem?-lt sb next (median_next f (length sb) h e even)) (λ k. (_, refl)))
            (λ odd. (m, refl)))

  -- A report is made whatever the collector holds, and of no more values than there are.
  pub update_ping_stat-IsSome :
      (c : Collector R) (ps : PingStat R)
      → c.filled ≤ length c.values
      → IsSome (update_ping_stat real c ps)
  unfolding update_ping_stat
  update_ping_stat-IsSome c ps h =
      let sb = sort real (take c.filled c.values) in
      let size : length sb ≡ c.filled =
        length-sort (take c.filled c.values) ∙ omega (arith, length-take c.filled c.values, h) in
      chosen IsSome (c.filled == 0) _ _ (λ empty. (_, refl))
        (λ full.
          let filled : 0 < c.filled = ground (arith, full) in
          and_then (median real c.filled sb) (λ m. _) (median-IsSome c.filled sb filled size)
            (λ m.
              and_then (get_elem? sb 0) (λ l. _) (get_elem?-lt sb 0 (omega (arith, size, filled)))
                (λ l.
                  and_then (get_elem? sb (p99_index c.filled)) (λ p. _)
                    (get_elem?-lt sb (p99_index c.filled)
                      (omega (arith, size, p99_index-lt c.filled filled)))
                    (λ p. (_, refl)))))

module _ {R : Type 0} (real : RealOps R) (order : IsOrder real) where
  IsLeast-weaken :
      (m m' : R) (xs : List R) → real.lt m' m ≡ false → IsLeast real m' xs → IsLeast real m xs
  IsLeast-weaken m m' [] h l = l
  IsLeast-weaken m m' (x ∷ xs) h l = (order.ge_trans m m' x h l.0, IsLeast-weaken m m' xs h l.1)

  not_less_self : (a : R) → real.lt a a ≡ false
  not_less_self a = elim (Bool-cases (real.lt a a)) [
    | inl less ↦ order.lt_asym a a less
    | inr not_less ↦ not_less
  ]

  -- The first one of these is the least of those.
  abbrev IsFirst : List R → List R → Type 0
  IsFirst [] xs = xs ≡ []
  IsFirst (y ∷ ys) xs = IsLeast real y xs

  insert-IsFirst : (x : R) (ys xs : List R) → IsFirst ys xs → IsFirst (insert real x ys) (x ∷ xs)
  insert-IsFirst x [] xs f = (not_less_self x, subst (λ zs. IsLeast real x zs) (sym f) tt)
  insert-IsFirst x (y ∷ ys) xs f =
      chosen (λ zs. IsFirst zs (x ∷ xs)) (real.lt y x) _ _ (λ less. (order.lt_asym y x less, f))
        (λ not_less. (not_less_self x, IsLeast-weaken x y xs not_less f))

  sort-IsFirst : (xs : List R) → IsFirst (sort real xs) xs
  sort-IsFirst [] = refl
  sort-IsFirst (x ∷ xs) = insert-IsFirst x (sort real xs) xs (sort-IsFirst xs)

  first-IsLeast :
      (ys xs : List R) (a : R) → IsFirst ys xs → get_elem? ys 0 ≡ some a → IsLeast real a xs
  unfolding from_some
  first-IsLeast [] xs a f e = absurd (none-some a e)
  first-IsLeast (y ∷ ys) xs a f e = subst (λ b. IsLeast real b xs) (ap (λ o. from_some y o) e) f

  -- Where the collector holds some values, no access of the report is out of bounds, and none of the
  -- values is less than the reported minimum. No NaN is among them.
  pub update_ping_stat-Finds :
      (n : ℕ) (vs : List R) (c : Collector R) (ps : PingStat R)
      → HoldsLast real n vs c
      → 0 < length vs
      → 0 < n
      → Finds
          (λ (q : PingStat R). IsLeast real q.t_min (take c.filled c.values))
          (update_ping_stat real c ps)
  unfolding update_ping_stat
  update_ping_stat-Finds n vs c ps h some_value pos =
      let counted = count_pings real c ps in
      let known = take c.filled c.values in
      let sb = sort real known in
      let filled : 0 < c.filled = omega (arith, h.filled_eq, some_value, pos) in
      let size : length sb ≡ c.filled =
        length-sort real known
        ∙ omega (arith, length-take c.filled c.values, h.filled_eq, h.size_eq) in
      let (med, med_eq) = median-IsSome real c.filled sb filled size in
      let (least, least_eq) = get_elem?-lt sb 0 (omega (arith, size, filled)) in
      let (p99, p99_eq) =
        get_elem?-lt sb (p99_index c.filled) (omega (arith, size, p99_index-lt c.filled filled)) in
      let Q : PingStat R → Type 0 = λ (q : PingStat R). IsLeast real q.t_min known in
      let lower = first-IsLeast sb known least (sort-IsFirst known) least_eq in
      chosen (Finds Q) (c.filled == 0) _ _ (λ empty. absurd (ground (arith, empty, filled)))
        (λ full.
          go_on Q (median real c.filled sb) (λ m. _) med med_eq
            (go_on Q (get_elem? sb 0) (λ l. _) least least_eq
              (go_on Q (get_elem? sb (p99_index c.filled)) (λ p. _) p99 p99_eq (_, (refl, lower)))))
