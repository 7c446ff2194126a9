-- ===== src/Tunnel/Prefix.antt =====
-- What comes out of the tunnel on a connection that may fail or be stopped at any time.
use mathlib.Core.Bool.{false≢true}
use libov.Prelude.{
  ℕ, zero, suc, ◌-◌, ◌≤◌, ◌≡◌, ◌≢◌, ◌∙◌, ◌⊎◌, inl, inr, refl, ap, sym, true, false, Bool-cases,
  List, [], ◌∷◌, ◌++◌, ltb, leb, ◌==◌, ==_iff, if◌then◌else◌, length, take, drop, min, arith,
  le_bytes, take-append, drop-append, length-drop, take-drop, drop-drop, lt→ltb, ge→ltb,
}
use libov.Protocol.{buf_size}
use libov.Message.{Bytes}
use libov.Tunnel.{
  Attempt, again, failed, closed, stopped, moved, returned, minus_one, minus_two, minus_four,
  waiting, Reading, End, out_of_bounds, overran, nbread, read_on, is_stopped, deliver,
  receive_frame, turns, handleconnection,
}
use libov.Tunnel.Stream.{is_zero}
use libov.Tunnel.Frames.{wire, Fit, frame_size-le_bytes}

-- A count that `nbread` returns is that of the bytes it took off the stream, all that were asked for
-- unless the server was stopped.
Reads : ℕ → Bytes → Reading → Type 0
Reads n s (returned k, bytes, rest, sch) =
    (bytes ≡ take k s)
    × (rest ≡ drop k s)
    × (k ≤ n)
    × (k ≤ length s)
    × ((k ≡ n) ⊎ (is_stopped sch ≡ true))
Reads n s (_, bytes, rest, sch) = Unit {0}

module _ (n g : ℕ) (s : Bytes) (small : g ≤ n) (inside : g ≤ length s) where
  read_on-Reads : (r : Reading) → Reads (n - g) (drop g s) r → Reads n s (read_on g s r)
  unfolding Reads
  read_on-Reads (returned k, bytes, rest, sch) (b, e, lo, hi, whole) = (
    ap (λ x. take g s ++ x) b ∙ take-drop g k s,
    e ∙ drop-drop g k s,
    omega (arith, lo),
    omega (arith, hi, length-drop g s),
    elim whole [ inl same ↦ inl (omega (arith, same)) | inr stop ↦ inr stop ],
  )
  read_on-Reads (minus_one, bytes, rest, sch) r = tt
  read_on-Reads (minus_two, bytes, rest, sch) r = tt
  read_on-Reads (minus_four, bytes, rest, sch) r = tt
  read_on-Reads (waiting, bytes, rest, sch) r = tt

nbread-Reads : (n : ℕ) (s : Bytes) (sch : List Attempt) → Reads n s (nbread n s sch)
unfolding nbread Reads
nbread-Reads zero s sch = (refl, refl, omega arith, omega arith, inl refl)
nbread-Reads (suc n) s [] = tt
nbread-Reads (suc n) s (again ∷ sch) = nbread-Reads (suc n) s sch
nbread-Reads (suc n) s (failed ∷ sch) = tt
nbread-Reads (suc n) s (closed ∷ sch) = tt
nbread-Reads (suc n) s (stopped ∷ sch) = (refl, refl, omega arith, omega arith, inr refl)
nbread-Reads (suc n) s (moved k ∷ sch) =
    go (min (min (suc n) (suc k)) (length s)) (omega arith) (omega arith)
      (λ g. nbread-Reads (suc n - g) (drop g s) sch)
  where
    go :
        (g : ℕ)
        → g ≤ suc n
        → g ≤ length s
        → ((g : ℕ) → Reads (suc n - g) (drop g s) (nbread (suc n - g) (drop g s) sch))
        → Reads (suc n) s (
            if g == 0
            then (minus_two, [], s, sch)
            else read_on g s (nbread (suc n - g) (drop g s) sch))
    go zero small inside again_with = tt
    go (suc g) small inside again_with =
        rw (is_zero (suc g) (omega arith))
          (read_on-Reads (suc n) (suc g) s small inside _ (again_with (suc g)))

-- The second list continues the first.
abbrev pub IsPrefix : List Bytes → List Bytes → Type 0
IsPrefix xs ys = (rest : List Bytes) × (xs ++ rest ≡ ys)

stopped-turns :
    (fuel : ℕ) (s : Bytes) (sch : List Attempt) → is_stopped sch ≡ true → (turns fuel s sch).0 ≡ []
unfolding turns
stopped-turns zero s sch h = refl
stopped-turns (suc fuel) s sch h = rw h refl

ltb-false : (a b : ℕ) → ltb a b ≡ false → b ≤ a
ltb-false a b h = ground arith

-- So it is with what was passed on, unless the loop wrote out of bounds.
Sound : List Bytes → List Bytes × End → Type 0
Sound ys (out, end) = end ≢ out_of_bounds → IsPrefix out ys

nothing : (ys : List Bytes) → IsPrefix [] ys
nothing ys = (ys, refl)

overran-Sound : (ys : List Bytes) (r : List Bytes × End) → Sound ys (overran r)
unfolding Sound
overran-Sound ys r h = absurd (h refl)

-- What follows a frame, when its datagram was read or the server was stopped.
module _ (ds : List Bytes) (next : Bytes → List Attempt → List Bytes × End) where
  deliver-Sound :
      (d : Bytes) (r : Reading)
      → ((sch : List Attempt) → Sound ds (next (wire ds) sch))
      → ((s : Bytes) (sch : List Attempt) → is_stopped sch ≡ true → (next s sch).0 ≡ [])
      → Reads (length d) (d ++ wire ds) r
      → Sound (d ∷ ds) (deliver (length d) r next)
  unfolding deliver Reads Sound
  deliver-Sound d (returned k, bytes, s, sch) follows ends (b, e, lo, hi, whole) =
      elim (Bool-cases (leb buf_size k)) [
        | inl over ↦ rw over (λ h. absurd (h refl))
        | inr under ↦ elim (Bool-cases (k == length d)) [
          | inl full ↦
              let same : k ≡ length d = (==_iff k (length d)).0 full in
              let data_is : bytes ≡ d =
                b ∙ ap (λ m. take m (d ++ wire ds)) same ∙ take-append d (wire ds) in
              let rest_is : s ≡ wire ds =
                e ∙ ap (λ m. drop m (d ++ wire ds)) same ∙ drop-append d (wire ds) in
              rw (under, full, data_is, rest_is) (λ h. go _ d (follows sch h))
          | inr part ↦
              rw (under, part)
                (elim whole [
                  | inl same ↦ absurd (false≢true (sym part ∙ (==_iff k (length d)).1 same))
                  | inr stop ↦ rw (ends s sch stop) (λ h. nothing (d ∷ ds))
                ])
        ]
      ]
    where
      go : (xs : List Bytes) (d : Bytes) → IsPrefix xs ds → IsPrefix (d ∷ xs) (d ∷ ds)
      go xs d (rest, e) = (rest, ap (◌∷◌ d) e)
  deliver-Sound d (minus_one, bytes, s, sch) follows ends r = overran-Sound (d ∷ ds) (next s sch)
  deliver-Sound d (minus_two, bytes, s, sch) follows ends r = overran-Sound (d ∷ ds) (next s sch)
  deliver-Sound d (minus_four, bytes, s, sch) follows ends r = overran-Sound (d ∷ ds) (next s sch)
  deliver-Sound d (waiting, bytes, s, sch) follows ends r = λ h. nothing (d ∷ ds)

  frame-Sound :
      (d : Bytes) (r : Reading)
      → length d ≤ buf_size
      → ((sch : List Attempt) → Sound ds (next (wire ds) sch))
      → ((s : Bytes) (sch : List Attempt) → is_stopped sch ≡ true → (next s sch).0 ≡ [])
      → Reads 4 (wire (d ∷ ds)) r
      → Sound (d ∷ ds) (receive_frame r next)
  unfolding receive_frame Reads Sound le_bytes
  frame-Sound d (returned k, bytes, s, sch) small follows ends (b, e, lo, hi, whole) =
      elim (Bool-cases (ltb k 4)) [
        | inl short ↦ rw short (λ h. nothing (d ∷ ds))
        | inr long ↦
            let four : k ≡ 4 = omega (arith, lo, ltb-false k 4 long) in
            let size_is : bytes ≡ le_bytes 4 (length d) =
              b ∙ ap (λ m. take m (wire (d ∷ ds))) four in
            let rest_is : s ≡ d ++ wire ds = e ∙ ap (λ m. drop m (wire (d ∷ ds))) four in
            rw
              (
                long,
                size_is,
                rest_is,
                frame_size-le_bytes (length d) small,
                ge→ltb buf_size (length d) small,
              )
              (deliver-Sound d (nbread (length d) (d ++ wire ds) sch) follows ends
                (nbread-Reads (length d) (d ++ wire ds) sch))
      ]
  frame-Sound d (minus_one, bytes, s, sch) small follows ends r = λ h. nothing (d ∷ ds)
  frame-Sound d (minus_two, bytes, s, sch) small follows ends r = λ h. nothing (d ∷ ds)
  frame-Sound d (minus_four, bytes, s, sch) small follows ends r = λ h. nothing (d ∷ ds)
  frame-Sound d (waiting, bytes, s, sch) small follows ends r = λ h. nothing (d ∷ ds)

-- At the end of the stream.
end-IsPrefix :
    (r : Reading) (next : Bytes → List Attempt → List Bytes × End)
    → Reads 4 [] r
    → (receive_frame r next).0 ≡ []
unfolding receive_frame Reads
end-IsPrefix (returned k, bytes, s, sch) next (b, e, lo, hi, whole) =
    rw (lt→ltb k 4 (omega (arith, hi))) refl
end-IsPrefix (minus_one, bytes, s, sch) next r = refl
end-IsPrefix (minus_two, bytes, s, sch) next r = refl
end-IsPrefix (minus_four, bytes, s, sch) next r = refl
end-IsPrefix (waiting, bytes, s, sch) next r = refl

turns-Sound :
    (fuel : ℕ) (ds : List Bytes) (sch : List Attempt)
    → Fit (suc buf_size) ds
    → Sound ds (turns fuel (wire ds) sch)
unfolding turns Sound
turns-Sound zero ds sch fit = λ h. nothing ds
turns-Sound (suc fuel) [] sch fit = elim (Bool-cases (is_stopped sch)) [
  | inl stop ↦ rw stop (λ h. nothing [])
  | inr live ↦
      rw (live, end-IsPrefix (nbread 4 [] sch) (turns fuel) (nbread-Reads 4 [] sch))
        (λ h. nothing [])
]
turns-Sound (suc fuel) (d ∷ ds) sch (pos, small, fit) = elim (Bool-cases (is_stopped sch)) [
  | inl stop ↦ rw stop (λ h. nothing (d ∷ ds))
  | inr live ↦ rw live (
      frame-Sound ds (turns fuel) d (nbread 4 (wire (d ∷ ds)) sch) (omega (arith, small))
        (λ sch'. turns-Sound fuel ds sch' fit) (stopped-turns fuel)
        (nbread-Reads 4 (wire (d ∷ ds)) sch))
]

-- Whatever happens to the reading side (errors, the end of the connection, a stop of the server, pieces
-- of any size): unless it writes outside of the bounds of its buffer on the way, the datagrams that it
-- passes on are the first ones of those that were sent, each of them whole.
pub handleconnection-IsPrefix :
    (ds : List Bytes) (sch : List Attempt)
    → Fit (suc buf_size) ds
    → (handleconnection (wire ds) sch).1 ≢ out_of_bounds
    → IsPrefix (handleconnection (wire ds) sch).0 ds
unfolding handleconnection Sound
handleconnection-IsPrefix ds sch fit h = turns-Sound (suc (length (wire ds))) ds sch fit h
