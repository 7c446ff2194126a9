-- ===== src/Socket/Pack.antt =====
-- The datagrams that `packmsg` makes, and the sequence numbers that it gives.
use libov.Prelude.{ℕ, ◌+◌, ◌%◌, ◌^◌, ◌≤◌, ◌<◌, ◌≡◌, refl, true, leb, length, arith}
use libov.Protocol.{buf_size, header_len}
use libov.Protocol.Port
use libov.Message.{Bytes}
use libov.Message.Laws.{Packed, packmsg-Packed}
use libov.Socket.{Socket, packmsg}

-- The fields of a socket fit their types.
pub record IsSocket (s : Socket) : Type 0 where
  pub secret_fits : s.secret < 2 ^ 32
  pub callerid_fits : s.callerid < 2 ^ 8

-- The number that the next message to `port` gets.
abbrev pub next_seq : Socket → ℕ → ℕ
next_seq s port = (s.seqmap port + 1) % 0x10000

is_data : (p : ℕ) → Port.maxspecialport < p → leb Port.maxspecialport p ≡ true
is_data p h = ground arith

module _ (s : Socket) (fits : IsSocket s) (stack : Bytes) (big : buf_size ≤ length stack) (port : ℕ)
    (low : port < 2 ^ 16) (high : Port.maxspecialport < port) (msg : Bytes)
    (room : header_len + length msg ≤ buf_size) where
  pub packmsg-data :
      let ((n, m), s') = packmsg s stack buf_size port msg (length msg) in
      Packed n s.secret s.callerid port (next_seq s port) msg m × (length m ≡ length stack)
  unfolding packmsg
  packmsg-data = rw (is_data port high) (
    (packmsg-Packed stack buf_size s.secret s.callerid port (next_seq s port) msg fits.secret_fits
        fits.callerid_fits low (omega arith) room big (omega arith)).0,
    (packmsg-Packed stack buf_size s.secret s.callerid port (next_seq s port) msg fits.secret_fits
        fits.callerid_fits low (omega arith) room big (omega arith)).1,
  )

  pub next_seq-packmsg :
      (packmsg s stack buf_size port msg (length msg)).1.seqmap port ≡ next_seq s port
  unfolding packmsg
  next_seq-packmsg = rw (is_data port high) (ground arith)

  pub packmsg-keeps :
      let s' = (packmsg s stack buf_size port msg (length msg)).1 in
      (s'.secret ≡ s.secret) × (s'.callerid ≡ s.callerid)
  unfolding packmsg
  packmsg-keeps = rw (is_data port high) (refl, refl)
