-- ===== src/Tunnel/Stream.antt =====
-- `nbread` and `nbwrite` on schedules on which the connection works.
use native.Mathlib.Omega.{arith}
use libov.Prelude.{
  ℕ, zero, suc, ◌+◌, ◌-◌, ◌≤◌, ◌<◌, ◌≡◌, ◌∙◌, refl, ap, false, List, [], ◌∷◌, ◌==◌, if◌then◌else◌,
  length, take, drop, min, length-drop, length-take, take-drop, drop-drop,
}
use libov.Message.{Bytes}
use libov.Tunnel.{
  Attempt, again, failed, closed, stopped, moved, returned, minus_two, nbread, nbwrite, read_on,
  write_on,
}

-- Nothing but waiting and transfers.
abbrev pub IsLively : List Attempt → Type 0
IsLively [] = Unit {0}
IsLively (again ∷ sch) = IsLively sch
IsLively (moved k ∷ sch) = IsLively sch
IsLively (failed ∷ sch) = ⊥
IsLively (closed ∷ sch) = ⊥
IsLively (stopped ∷ sch) = ⊥

-- How many transfers there are.
abbrev pub transfers : List Attempt → ℕ
transfers [] = 0
transfers (moved k ∷ sch) = suc (transfers sch)
transfers (a ∷ sch) = transfers sch

pub is_zero : (g : ℕ) → 0 < g → (g == 0) ≡ false
is_zero g h = ground arith

-- What is left of a schedule of `t` transfers after those of `n` bytes.
pub record Left (t n : ℕ) (sch' : List Attempt) : Type 0 where
  pub lively : IsLively sch'
  pub enough : t ≤ transfers sch' + n

pub nbread-lively :
    (n : ℕ) (s : Bytes) (sch : List Attempt)
    → IsLively sch
    → n ≤ length s
    → n ≤ transfers sch
    → (sch' : List Attempt) × (nbread n s sch ≡ (returned n, take n s, drop n s, sch'))
      × Left (transfers sch) n sch'
unfolding nbread
nbread-lively zero s sch l h k = (sch, refl, record { lively = l; enough = omega arith })
nbread-lively (suc n) s [] l h k = absurd (omega arith)
nbread-lively (suc n) s (again ∷ sch) l h k = nbread-lively (suc n) s sch l h k
nbread-lively (suc n) s (failed ∷ sch) l h k = elim l [ ]
nbread-lively (suc n) s (closed ∷ sch) l h k = elim l [ ]
nbread-lively (suc n) s (stopped ∷ sch) l h k = elim l [ ]
nbread-lively (suc n) s (moved k ∷ sch) l h e =
    go
      (λ g pos small inside.
        nbread-lively (suc n - g) (drop g s) sch l (omega (arith, length-drop g s)) (omega arith))
      (min (min (suc n) (suc k)) (length s)) (omega arith) (omega arith) (omega arith)
  where
    go :
        ((g : ℕ)
          → 0 < g
          → g ≤ suc n
          → g ≤ length s
          → (sch' : List Attempt) × (nbread (suc n - g) (drop g s) sch ≡ (
            returned (suc n - g),
            take (suc n - g) (drop g s),
            drop (suc n - g) (drop g s),
            sch',
          ))
            × Left (transfers sch) (suc n - g) sch')
        → (g : ℕ) → 0 < g
        → g ≤ suc n
        → g ≤ length s
        → (sch' : List Attempt) × ((if g == 0
              then (minus_two, [], s, sch)
              else read_on g s (nbread (suc n - g) (drop g s) sch))
            ≡ (returned (suc n), take (suc n) s, drop (suc n) s, sch'))
          × Left (suc (transfers sch)) (suc n) sch'
    go again_with g pos small inside =
        let (sch', same, left) = again_with g pos small inside in
        let sum : g + (suc n - g) ≡ suc n = omega arith in
        (
          sch',
          rw (is_zero g pos, same)
              (λ i. (
                returned (sum i),
                (take-drop g (suc n - g) s ∙ ap (λ m. take m s) sum) i,
                (drop-drop g (suc n - g) s ∙ ap (λ m. drop m s) sum) i,
                sch',
              )),
          record { lively = left.lively; enough = omega (arith, left.enough) },
        )

pub nbwrite-lively :
    (n : ℕ) (buf : Bytes) (sch : List Attempt)
    → IsLively sch
    → n ≤ length buf
    → n ≤ transfers sch
    → (sch' : List Attempt) × (nbwrite n buf sch ≡ (returned n, take n buf, sch'))
      × Left (transfers sch) n sch'
unfolding nbwrite
nbwrite-lively zero buf sch l h k = (sch, refl, record { lively = l; enough = omega arith })
nbwrite-lively (suc n) buf [] l h k = absurd (omega arith)
nbwrite-lively (suc n) buf (again ∷ sch) l h k = nbwrite-lively (suc n) buf sch l h k
nbwrite-lively (suc n) buf (failed ∷ sch) l h k = elim l [ ]
nbwrite-lively (suc n) buf (closed ∷ sch) l h k = elim l [ ]
nbwrite-lively (suc n) buf (stopped ∷ sch) l h k = elim l [ ]
nbwrite-lively (suc n) buf (moved k ∷ sch) l h e =
    go
      (λ g pos small.
        nbwrite-lively (suc n - g) (drop g buf) sch l (omega (arith, length-drop g buf))
          (omega arith))
      (min (suc n) (suc k)) (omega arith) (omega arith)
  where
    go :
        ((g : ℕ)
          → 0 < g
          → g ≤ suc n
          → (sch' : List Attempt) × (nbwrite (suc n - g) (drop g buf) sch
              ≡ (returned (suc n - g), take (suc n - g) (drop g buf), sch'))
            × Left (transfers sch) (suc n - g) sch')
        → (g : ℕ) → 0 < g
        → g ≤ suc n
        → (sch' : List Attempt) × (write_on (take g buf) (nbwrite (suc n - g) (drop g buf) sch)
            ≡ (returned (suc n), take (suc n) buf, sch'))
          × Left (suc (transfers sch)) (suc n) sch'
    go again_with g pos small =
        let (sch', same, left) = again_with g pos small in
        let sum : length (take g buf) + (suc n - g) ≡ suc n = omega (arith, length-take g buf) in
        let sum' : g + (suc n - g) ≡ suc n = omega arith in
        (
          sch',
          rw same (λ i. (
            returned (sum i),
            (take-drop g (suc n - g) buf ∙ ap (λ m. take m buf) sum') i,
            sch',
          )),
          record { lively = left.lively; enough = omega (arith, left.enough) },
        )

-- Behind the last byte, a read returns 0.
pub nbread_end :
    (n : ℕ) (sch : List Attempt)
    → IsLively sch
    → 0 < transfers sch
    → (sch' : List Attempt) × (nbread (suc n) [] sch ≡ (minus_two, [], [], sch'))
unfolding nbread
nbread_end n [] l h = absurd (omega arith)
nbread_end n (again ∷ sch) l h = nbread_end n sch l h
nbread_end n (failed ∷ sch) l h = elim l [ ]
nbread_end n (closed ∷ sch) l h = elim l [ ]
nbread_end n (stopped ∷ sch) l h = elim l [ ]
nbread_end n (moved k ∷ sch) l h = (
  sch,
  ap
      (λ g.
        if g == 0
        then (minus_two, [], [], sch)
        else read_on g [] (nbread (suc n - g) (drop g []) sch))
      none_there,
)
  where
    none_there : min (min (suc n) (suc k)) 0 ≡ 0
    none_there = omega arith
