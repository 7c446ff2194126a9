-- ===== src/Tunnel/Tests.antt =====
-- Two datagrams on a connection that cuts their fourteen bytes into pieces.
use libov.Prelude.{
  ℕ, zero, suc, ap, ◌≡◌, refl, List, [], ◌∷◌, length, replicate, length-replicate, arith, le_bytes,
  le_value,
}
use libov.Protocol.{buf_size}
use libov.Message.{Bytes}
use libov.Tunnel.{
  Attempt, again, failed, moved, left, out_of_bounds, nbread, deliver, receive_frame, turns,
  udpreceive, handleconnection,
}
use libov.Tunnel.Stream.{IsLively, transfers}
use libov.Tunnel.Frames.{wire, length-wire, handleconnection-udpreceive, handleconnection_overrun}
use libov.Tunnel.Prefix.{IsPrefix, handleconnection-IsPrefix}

abbrev datagrams : List Bytes
datagrams = (b'h' ∷ b'i' ∷ []) ∷ (b'y' ∷ b'o' ∷ b'u' ∷ []) ∷ []

abbrev datagrams_first : List Bytes
datagrams_first = (b'h' ∷ b'i' ∷ []) ∷ []

-- Up to three bytes, with a pause, and up to a hundred from then on.
abbrev pieces : List Attempt
pieces = moved 2 ∷ again ∷ moved 2 ∷ replicate 20 (moved 99)

handleconnection-udpreceive_example :
    handleconnection (udpreceive datagrams pieces).0 pieces ≡ (datagrams, left)
unfolding le_bytes
handleconnection-udpreceive_example =
    handleconnection-udpreceive datagrams pieces pieces
      (omega arith, omega arith, (omega arith, omega arith, tt)) tt tt (omega arith) (omega arith)

-- The connection fails within the size of the second datagram.
abbrev failing : List Attempt
failing = moved 3 ∷ moved 1 ∷ moved 1 ∷ failed ∷ []

first_passed : handleconnection (wire datagrams) failing ≡ (datagrams_first, left)
unfolding handleconnection turns receive_frame deliver nbread le_bytes le_value
first_passed = refl

handleconnection-IsPrefix_example : IsPrefix (handleconnection (wire datagrams) failing).0 datagrams
handleconnection-IsPrefix_example =
    handleconnection-IsPrefix datagrams failing
      (omega arith, omega arith, (omega arith, omega arith, tt)) (λ e. cc (e, first_passed))

abbrev full : Bytes
full = replicate buf_size 7

-- One byte at a time.
abbrev single : ℕ → List Attempt
single n = replicate n (moved 0)

single-IsLively : (n : ℕ) → IsLively (single n)
single-IsLively zero = tt
single-IsLively (suc n) = single-IsLively n

transfers-single : (n : ℕ) → transfers (single n) ≡ n
transfers-single zero = refl
transfers-single (suc n) = ap suc (transfers-single n)

length-full : length full ≡ buf_size
length-full = length-replicate {A = ℕ} buf_size 7

full_datagram_overruns :
    (handleconnection (udpreceive (full ∷ []) (single 9000)).0 (single 9000)).1 ≡ out_of_bounds
full_datagram_overruns =
    handleconnection_overrun full (single 9000) (single 9000) length-full (single-IsLively 9000)
      (single-IsLively 9000)
      (omega (arith, length-wire full [], length-full, transfers-single 9000))
      (omega (arith, length-wire full [], length-full, transfers-single 9000))
