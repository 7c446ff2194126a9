-- ===== src/Tunnel/Frames.antt =====
-- The datagrams that go into the tunnel at one end and come out of it at the other.
use libov.Prelude.{
  ℕ, zero, suc, ◌+◌, ◌^◌, ◌≤◌, ◌<◌, ◌≡◌, ◌∙◌, refl, ap, true, false, List, [], ◌∷◌, ◌++◌, leb, ◌==◌,
  length, arith, le_bytes, le_value-le_bytes, length-le_bytes, length-append, take-append,
  drop-append, take_all, ge→ltb, lt→ltb,
}
use mathlib.Core.List.{append_assoc}
use libov.Protocol.{buf_size}
use libov.Message.{Bytes}
use libov.Tunnel.{
  Attempt, again, failed, closed, stopped, moved, returned, left, out_of_bounds, nbread, send,
  udpreceive, frame_size, is_stopped, deliver, receive_frame, turns, handleconnection,
}
use libov.Tunnel.Stream.{IsLively, transfers, Left, nbread-lively, nbwrite-lively, nbread_end}

-- The bytes of the connection for a list of datagrams.
abbrev pub wire : List Bytes → Bytes
wire [] = []
wire (d ∷ ds) = le_bytes 4 (length d) ++ (d ++ wire ds)

-- Datagrams that are not empty and shorter than `bound`.
abbrev pub Fit : ℕ → List Bytes → Type 0
Fit bound [] = Unit {0}
Fit bound (d ∷ ds) = (0 < length d) × (length d < bound) × Fit bound ds

send-lively :
    (d : Bytes) (sch : List Attempt)
    → IsLively sch
    → 4 + length d ≤ transfers sch
    → (sch' : List Attempt) × (send d sch ≡ (returned (length d), le_bytes 4 (length d) ++ d, sch'))
      × Left (transfers sch) (4 + length d) sch'
unfolding send le_bytes
send-lively d sch l h =
    let (s1, e1, l1) = nbwrite-lively 4 (le_bytes 4 (length d)) sch l (omega arith) (omega arith) in
    let (s2, e2, l2) =
      nbwrite-lively (length d) d s1 l1.lively (omega arith) (omega (arith, l1.enough)) in
    (
      s2,
      rw (e1, e2, take_all (length d) d (omega arith)) refl,
      record { lively = l2.lively; enough = omega (arith, l1.enough, l2.enough) },
    )

pub length-wire :
    (d : Bytes) (ds : List Bytes) → length (wire (d ∷ ds)) ≡ 4 + length d + length (wire ds)
length-wire d ds = omega (
  arith,
  length-append (le_bytes 4 (length d)) (d ++ wire ds),
  length-le_bytes 4 (length d),
  length-append d (wire ds),
)

pub udpreceive-lively :
    (bound : ℕ) (ds : List Bytes) (sch : List Attempt)
    → bound ≤ suc buf_size
    → Fit bound ds
    → IsLively sch
    → length (wire ds) ≤ transfers sch
    → (udpreceive ds sch).0 ≡ wire ds
unfolding udpreceive
udpreceive-lively bound [] sch b fit l h = refl
udpreceive-lively bound (d ∷ ds) sch b (pos, small, fit) l h =
    let (s1, e1, l1) = send-lively d sch l (omega (arith, h, length-wire d ds)) in
    rw (take_all buf_size d (omega (arith, small, b)), lt→ltb 0 (length d) pos, e1)
      (ap (λ w. (le_bytes 4 (length d) ++ d) ++ w)
          (udpreceive-lively bound ds s1 b fit l1.lively
            (omega (arith, h, length-wire d ds, l1.enough)))
        ∙ append_assoc (le_bytes 4 (length d)) d (wire ds))

lively-not_stopped : (sch : List Attempt) → IsLively sch → is_stopped sch ≡ false
lively-not_stopped [] l = refl
lively-not_stopped (again ∷ sch) l = refl
lively-not_stopped (moved k ∷ sch) l = refl
lively-not_stopped (failed ∷ sch) l = elim l [ ]
lively-not_stopped (closed ∷ sch) l = elim l [ ]
lively-not_stopped (stopped ∷ sch) l = elim l [ ]

pub same_size : (n : ℕ) → (n == n) ≡ true
same_size n = ground arith

too_short : (n : ℕ) → n < buf_size → leb buf_size n ≡ false
too_short n h = ground arith

-- The four bytes of a size that fits into the buffer.
pub frame_size-le_bytes : (n : ℕ) → n ≤ buf_size → frame_size (le_bytes 4 n) ≡ n
frame_size-le_bytes n h =
    rw (le_value-le_bytes 4 n (omega arith), lt→ltb n (2 ^ 31) (omega arith)) refl

-- Reading the size of the next frame.
pub read_size :
    (n : ℕ) (rest : Bytes) (sch : List Attempt)
    → IsLively sch
    → 4 ≤ transfers sch
    → (sch' : List Attempt) × (nbread 4 (le_bytes 4 n ++ rest) sch
        ≡ (returned 4, le_bytes 4 n, rest, sch'))
      × Left (transfers sch) 4 sch'
unfolding le_bytes
read_size n rest sch l h = nbread-lively 4 (le_bytes 4 n ++ rest) sch l (omega arith) h

-- Reading the datagram.
read_data :
    (d rest : Bytes) (sch : List Attempt)
    → IsLively sch
    → length d ≤ transfers sch
    → (sch' : List Attempt) × (nbread (length d) (d ++ rest) sch
        ≡ (returned (length d), d, rest, sch'))
      × Left (transfers sch) (length d) sch'
read_data d rest sch l h =
    let (s1, e, l1) =
      nbread-lively (length d) (d ++ rest) sch l (omega (arith, length-append d rest)) h in
    (s1, e ∙ (λ i. (returned (length d), take-append d rest i, drop-append d rest i, s1)), l1)

turns-lively :
    (fuel : ℕ) (ds : List Bytes) (sch : List Attempt)
    → Fit buf_size ds
    → IsLively sch
    → length (wire ds) < transfers sch
    → length (wire ds) < fuel
    → turns fuel (wire ds) sch ≡ (ds, left)
unfolding turns receive_frame deliver
turns-lively zero ds sch fit l h k = absurd (omega (arith, k))
turns-lively (suc fuel) [] sch fit l h k =
    let (s1, e1) = nbread_end 3 sch l (omega arith) in rw (lively-not_stopped sch l, e1) refl
turns-lively (suc fuel) (d ∷ ds) sch (pos, small, fit) l h k =
    let (s1, e1, l1) =
      read_size (length d) (d ++ wire ds) sch l (omega (arith, h, length-wire d ds)) in
    let (s2, e2, l2) =
      read_data d (wire ds) s1 l1.lively (omega (arith, h, length-wire d ds, l1.enough)) in
    rw
      (
        lively-not_stopped sch l,
        e1,
        frame_size-le_bytes (length d) (omega (arith, small)),
        ge→ltb buf_size (length d) (omega (arith, small)),
        e2,
        too_short (length d) small,
        same_size (length d),
        turns-lively fuel ds s2 fit l2.lively
            (omega (arith, h, length-wire d ds, l1.enough, l2.enough))
            (omega (arith, k, length-wire d ds)),
      )
      refl

turns_overrun :
    (fuel : ℕ) (d : Bytes) (ds : List Bytes) (sch : List Attempt)
    → length d ≡ buf_size
    → IsLively sch
    → length (wire (d ∷ ds)) ≤ transfers sch
    → (turns (suc fuel) (wire (d ∷ ds)) sch).1 ≡ out_of_bounds
unfolding turns receive_frame deliver
turns_overrun fuel d ds sch full l h =
    let (s1, e1, l1) =
      read_size (length d) (d ++ wire ds) sch l (omega (arith, h, length-wire d ds)) in
    let (s2, e2, l2) =
      read_data d (wire ds) s1 l1.lively (omega (arith, h, length-wire d ds, l1.enough)) in
    let over : leb buf_size (length d) ≡ true = ground (arith, full) in
    rw
      (
        lively-not_stopped sch l,
        e1,
        frame_size-le_bytes (length d) (omega (arith, full)),
        ge→ltb buf_size (length d) (omega (arith, full)),
        e2,
        over,
      )
      refl

-- Datagrams that are not empty and shorter than the buffer, sent into one end of the tunnel on a
-- working connection, come out of the other end as they are and in their order, however the
-- connection cuts the bytes into pieces on either side; the loop then leaves.
pub handleconnection-udpreceive :
    (ds : List Bytes) (out_sch in_sch : List Attempt)
    → Fit buf_size ds
    → IsLively out_sch
    → IsLively in_sch
    → length (wire ds) ≤ transfers out_sch
    → length (wire ds) < transfers in_sch
    → handleconnection (udpreceive ds out_sch).0 in_sch ≡ (ds, left)
unfolding handleconnection
handleconnection-udpreceive ds out_sch in_sch fit l l' h h' =
    rw (udpreceive-lively buf_size ds out_sch (omega arith) fit l h)
      (turns-lively (suc (length (wire ds))) ds in_sch fit l' h' (omega arith))

-- A datagram that fills the buffer, as the receiving side of the tunnel accepts it, makes the other
-- side write behind the end of its buffer.
pub handleconnection_overrun :
    (d : Bytes) (out_sch in_sch : List Attempt)
    → length d ≡ buf_size
    → IsLively out_sch
    → IsLively in_sch
    → length (wire (d ∷ [])) ≤ transfers out_sch
    → length (wire (d ∷ [])) ≤ transfers in_sch
    → (handleconnection (udpreceive (d ∷ []) out_sch).0 in_sch).1 ≡ out_of_bounds
unfolding handleconnection
handleconnection_overrun d out_sch in_sch full l l' h h' =
    rw
      (udpreceive-lively (suc buf_size) (d ∷ []) out_sch (omega arith)
        (omega (arith, full), omega (arith, full), tt) l h)
      (turns_overrun (length (wire (d ∷ []))) d [] in_sch full l' h')
