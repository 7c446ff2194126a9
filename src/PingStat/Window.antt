-- ===== src/PingStat/Window.antt =====
-- The ring of the collector holds the last values that came in.
use mathlib.Core.List.{append_assoc}
use mathlib.Core.Path.{subst}
use libov.Prelude.{
  ℕ, suc, ◌+◌, ◌<◌, ◌≡◌, ◌∙◌, refl, ap, sym, min, Option, none, some, List, [], ◌∷◌, ◌++◌, ltb, leb,
  if◌then◌else◌, length, get_elem?, set, drop, replicate, length-append, length-replicate, add_size,
  arith,
}
use libov.Real.{RealOps}
use libov.PingStat.{Collector, new_collector, add_value, add_values}

get_elem?-append :
    {A : Type 0} (xs : List A) (y : A) (ys : List A)
    → get_elem? (xs ++ (y ∷ ys)) (length xs) ≡ some y
get_elem?-append [] y ys = refl
get_elem?-append (x ∷ xs) y ys = get_elem?-append xs y ys

set-append :
    {A : Type 0} (xs : List A) (y v : A) (ys : List A)
    → set (xs ++ (y ∷ ys)) (length xs) v ≡ xs ++ (v ∷ ys)
set-append [] y v ys = refl
set-append (x ∷ xs) y v ys = ap (◌∷◌ x) (set-append xs y v ys)

append_nil : {A : Type 0} (xs : List A) → xs ++ [] ≡ xs
append_nil [] = refl
append_nil (x ∷ xs) = ap (◌∷◌ x) (append_nil xs)

-- The specification: a window, out of which each new value shifts the oldest.
abbrev pub push : {A : Type 0} → A → List A → List A
push v [] = []
push v (x ∷ w) = w ++ (v ∷ [])

abbrev pub pushes : {A : Type 0} → List A → List A → List A
pushes [] w = w
pushes (v ∷ vs) w = pushes vs (push v w)

one_more : (n m : ℕ) → (if ltb (min n m) m then min n m + 1 else min n m) ≡ min (suc n) m
one_more n m = ground arith

nothing : (n : ℕ) → min 0 n ≡ 0
nothing n = omega arith

at_end : (n : ℕ) → (if leb (n + 1) (n + 1) then 0 else n + 1) ≡ 0
at_end n = ground arith

before_end : (n k : ℕ) → (if leb (n + suc (suc k)) (n + 1) then 0 else n + 1) ≡ n + 1
before_end n k = ground arith

module _ {R : Type 0} (real : RealOps R) where
  -- A collector that `n` values came into. The next one goes behind the newer ones, over the oldest.
  abbrev pub ring : ℕ → ℕ → R → List R → List R → ℕ → Collector R
  ring sent received sum newer older n = record {
    sent = sent;
    received = received;
    values = newer ++ older;
    idx = length newer;
    filled = min n (length (newer ++ older));
    sum = sum;
  }

  -- The collector holds this window of the last values.
  pub record Holds (n : ℕ) (w : List R) (c : Collector R) : Type 0 where
    pub newer : List R
    pub older : List R
    pub shape : c ≡ ring c.sent c.received c.sum newer older n
    pub window : w ≡ older ++ newer
    pub room : length newer < length w

  -- The new value takes the place of the oldest one, at the end of the ring or before it.
  add_value-ring :
      (s r : ℕ) (sum : R) (newer older : List R) (x v : R) (n : ℕ)
      → add_value real v (ring s r sum newer (x ∷ older) n)
        ≡ some (record {
          sent = s;
          received = add_size r 1;
          values = newer ++ (v ∷ older);
          idx =
              (if leb (length newer + suc (length older)) (length newer + 1)
                then 0
                else length newer + 1);
          filled = min (suc n) (length newer + suc (length older));
          sum = real.add (real.sub sum x) v;
        })
  unfolding add_value
  add_value-ring s r sum newer older x v n =
      rw
        (
          get_elem?-append newer x older,
          set-append newer x v older,
          length-append newer (x ∷ older),
          one_more n (length newer + suc (length older)),
        )
        refl

  -- After one more value, the ring holds the window that this value was pushed into.
  Next : ℕ → List R → Option (Collector R) → Type 0
  Next n w o = (c : Collector R) × ((o ≡ some c) × Holds n w c)

  ring-Next :
      (s r : ℕ) (sum : R) (newer older : List R) (x v : R) (n : ℕ)
      → Next
          (suc n)
          ((older ++ newer) ++ (v ∷ []))
          (add_value real v (ring s r sum newer (x ∷ older) n))
  unfolding Next
  ring-Next s r sum newer [] x v n =
      let sum' = real.add (real.sub sum x) v in
      (
        ring s (add_size r 1) sum' [] (newer ++ (v ∷ [])) (suc n),
        (
          add_value-ring s r sum newer [] x v n
              ∙ rw (at_end (length newer), length-append newer (v ∷ [])) refl,
          record {
            newer = [];
            older = newer ++ (v ∷ []);
            shape = refl;
            window = sym (append_nil (newer ++ (v ∷ [])));
            room = omega (arith, length-append newer (v ∷ []));
          },
        ),
      )
  ring-Next s r sum newer (y ∷ ys) x v n =
      let sum' = real.add (real.sub sum x) v in
      (
        ring s (add_size r 1) sum' (newer ++ (v ∷ [])) (y ∷ ys) (suc n),
        (
          add_value-ring s r sum newer (y ∷ ys) x v n
              ∙ rw
                  (
                    before_end (length newer) (length ys),
                    append_assoc newer (v ∷ []) (y ∷ ys),
                    length-append newer (v ∷ []),
                    length-append newer (v ∷ (y ∷ ys)),
                  )
                  refl,
          record {
            newer = newer ++ (v ∷ []);
            older = y ∷ ys;
            shape = refl;
            window = append_assoc (y ∷ ys) newer (v ∷ []);
            room = omega (
              arith,
              length-append newer (v ∷ []),
              length-append ((y ∷ ys) ++ newer) (v ∷ []),
              length-append (y ∷ ys) newer,
            );
          },
        ),
      )

  ring-push :
      (v : R) (n : ℕ) (c : Collector R) (newer older : List R)
      → c ≡ ring c.sent c.received c.sum newer older n
      → length newer < length (older ++ newer)
      → Next (suc n) (push v (older ++ newer)) (add_value real v c)
  ring-push v n c newer [] shape room = absurd (omega (arith, room))
  ring-push v n c newer (x ∷ older) shape room =
      subst (λ d. Next (suc n) ((older ++ newer) ++ (v ∷ [])) (add_value real v d)) (sym shape)
        (ring-Next c.sent c.received c.sum newer older x v n)

  add_value-Next :
      (v : R) (n : ℕ) (w : List R) (c : Collector R)
      → Holds n w c
      → Next (suc n) (push v w) (add_value real v c)
  add_value-Next v n w c h =
      subst (λ u. Next (suc n) (push v u) (add_value real v c)) (sym h.window)
        (ring-push v n c h.newer h.older h.shape
          (subst (λ (u : List R). length h.newer < length u) h.window h.room))

  add_values-Next :
      (vs : List R) (n m : ℕ) (w : List R) (c : Collector R)
      → m ≡ length vs + n
      → Holds n w c
      → Next m (pushes vs w) (add_values real vs c)
  unfolding Next
  add_values-Next [] n m w c e h = (c, (refl, subst (λ k. Holds k w c) (omega (arith, e)) h))
  add_values-Next (v ∷ vs) n m w c e h =
      let (c', (taken, h')) = add_value-Next v n w c h in
      subst
        (λ o.
          Next m (pushes vs (push v w)) (elim o [ none ↦ none | some d ↦ add_values real vs d ]))
        (sym taken) (add_values-Next vs (suc n) m (push v w) c' (omega (arith, e)) h')

  new_collector-Holds :
      (n : ℕ) → 0 < n → Holds 0 (replicate n (real.of_nat 0)) (new_collector real n)
  unfolding new_collector
  new_collector-Holds n h = record {
    newer = [];
    older = replicate n (real.of_nat 0);
    shape = rw (nothing (length (replicate n (real.of_nat 0)))) refl;
    window = sym (append_nil (replicate n (real.of_nat 0)));
    room = omega (arith, h, length-replicate n (real.of_nat 0));
  }

  -- The window is what remains behind the values that were shifted out.
  pushes-drop : (vs w : List R) → 0 < length w → pushes vs w ≡ drop (length vs) (w ++ vs)
  pushes-drop [] w h = sym (append_nil w)
  pushes-drop (v ∷ vs) [] h = absurd (omega (arith, h))
  pushes-drop (v ∷ vs) (x ∷ w) h =
      pushes-drop vs (w ++ (v ∷ [])) (omega (arith, length-append w (v ∷ [])))
      ∙ ap (drop (length vs)) (append_assoc w (v ∷ []) vs)

  -- The collector was made for `n` values, and these came in: the ring is the last `n` of them, or what
  -- there is behind zeros, from the place that comes next on the older ones, before it the newer ones.
  pub record HoldsLast (n : ℕ) (vs : List R) (c : Collector R) : Type 0 where
    pub newer : List R
    pub older : List R
    pub values_eq : c.values ≡ newer ++ older
    pub last_eq : older ++ newer ≡ drop (length vs) (replicate n (real.of_nat 0) ++ vs)
    pub idx_eq : c.idx ≡ length newer
    pub idx_lt : c.idx < n
    pub size_eq : length c.values ≡ n
    pub filled_eq : c.filled ≡ min (length vs) n

  length-pushes : (vs w : List R) → length (pushes vs w) ≡ length w
  length-pushes [] w = refl
  length-pushes (v ∷ vs) [] = length-pushes vs []
  length-pushes (v ∷ vs) (x ∷ w) =
      omega (arith, length-pushes vs (w ++ (v ∷ [])), length-append w (v ∷ []))

  Holds-HoldsLast :
      (n : ℕ) (vs : List R) (c : Collector R)
      → 0 < n
      → Holds (length vs) (pushes vs (replicate n (real.of_nat 0))) c
      → HoldsLast n vs c
  Holds-HoldsLast n vs c pos h =
      let zeros = replicate n (real.of_nat 0) in
      let size = length-pushes vs zeros in
      let all = length-replicate n (real.of_nat 0) in
      let parts = length-append h.older h.newer in
      let parts' = length-append h.newer h.older in
      let whole = ap length h.window in
      record {
        newer = h.newer;
        older = h.older;
        values_eq = ap (λ (d : Collector R). d.values) h.shape;
        last_eq = sym h.window ∙ pushes-drop vs zeros (omega (arith, all, pos));
        idx_eq = ap (λ (d : Collector R). d.idx) h.shape;
        idx_lt = omega (arith, ap (λ (d : Collector R). d.idx) h.shape, h.room, size, all);
        size_eq =
            ap (λ (d : Collector R). length d.values) h.shape
            ∙ omega (arith, parts, parts', whole, size, all);
        filled_eq =
            ap (λ (d : Collector R). d.filled) h.shape
            ∙ ap (min (length vs)) (omega (arith, parts, parts', whole, size, all));
      }

  -- Whatever values come into a new collector for at least one value, no access is out of bounds, and
  -- the collector then holds the last of them.
  pub add_values-new :
      (n : ℕ) (vs : List R)
      → 0 < n
      → (c : Collector R) × ((add_values real vs (new_collector real n) ≡ some c)
          × HoldsLast n vs c)
  unfolding Next
  add_values-new n vs pos =
      let (c, (e, h)) =
        add_values-Next vs 0 (length vs) (replicate n (real.of_nat 0)) (new_collector real n)
          (omega arith) (new_collector-Holds n pos) in
      (c, (e, Holds-HoldsLast n vs c pos h))
