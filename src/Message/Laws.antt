-- ===== src/Message/Laws.antt =====
-- What `packmsg` and `addmsg` leave in the buffer.
use libov.Prelude.{
  ℕ, ◌+◌, ◌^◌, ◌≤◌, ◌<◌, ◌≡◌, refl, ap, ◌∙◌, arith, length, drop, slice, write_at, le_bytes,
  le_value, length-le_bytes, le_value-le_bytes, length-write_at, slice-write_at_self,
  slice-write_at_before, drop-write_at_after, take_all, ge→ltb, add_size,
}
use native.Mathlib.Nat.{le_refl}
use libov.Protocol.{header_len, pos_callerid, pos_port, pos_seq}
use libov.Message.{
  Bytes, msg_secret, msg_callerid, msg_port, msg_seq, set_secret, set_callerid, set_port, set_seq,
  write_header, packmsg,
}

-- A field of `w` bytes at `o` is read back after it was written.
field_self :
    (o w v : ℕ) (m : Bytes)
    → v < 256 ^ w
    → o + w ≤ length m
    → le_value (slice o w (write_at o (le_bytes w v) m)) ≡ v
field_self o w v m hv hm =
    ap le_value (slice-write_at_self o (le_bytes w v) m w (length-le_bytes w v) hm)
    ∙ le_value-le_bytes w v hv

field_before :
    (o w v p n : ℕ) (m : Bytes)
    → p + n ≤ o
    → le_value (slice p n (write_at o (le_bytes w v) m)) ≡ le_value (slice p n m)
field_before o w v p n m h = ap le_value (slice-write_at_before o p n (le_bytes w v) m h)

module _ (secret callerid destport seq : ℕ) (m : Bytes) where
  pub length-write_header : length (write_header secret callerid destport seq m) ≡ length m
  unfolding write_header set_secret set_callerid set_port set_seq
  length-write_header =
      length-write_at pos_seq _ _
      ∙ length-write_at pos_port _ _
      ∙ length-write_at pos_callerid _ _
      ∙ length-write_at 0 _ m

  module _ (hm : header_len ≤ length m) where
    pub secret-write_header :
        secret < 2 ^ 32 → msg_secret (write_header secret callerid destport seq m) ≡ secret
    unfolding write_header msg_secret set_secret set_callerid set_port set_seq
    secret-write_header h =
        field_before pos_seq 2 seq 0 4 _ (omega arith)
        ∙ field_before pos_port 2 destport 0 4 _ (omega arith)
        ∙ field_before pos_callerid 1 callerid 0 4 _ (omega arith)
        ∙ field_self 0 4 secret m h (omega arith)

    pub callerid-write_header :
        callerid < 2 ^ 8 → msg_callerid (write_header secret callerid destport seq m) ≡ callerid
    unfolding write_header msg_callerid set_secret set_callerid set_port set_seq
    callerid-write_header h =
        field_before pos_seq 2 seq 4 1 _ (omega arith)
        ∙ field_before pos_port 2 destport 4 1 _ (omega arith)
        ∙ field_self 4 1 callerid _ h (omega (arith, length-write_at 0 (le_bytes 4 secret) m))

    pub port-write_header :
        destport < 2 ^ 16 → msg_port (write_header secret callerid destport seq m) ≡ destport
    unfolding write_header msg_port set_secret set_callerid set_port set_seq
    port-write_header h =
        field_before pos_seq 2 seq 5 2 _ (omega arith)
        ∙ field_self 5 2 destport _ h (
            omega (
              arith,
              length-write_at 4 (le_bytes 1 callerid) (write_at 0 (le_bytes 4 secret) m),
              length-write_at 0 (le_bytes 4 secret) m,
            ))

    pub seq-write_header :
        seq < 2 ^ 16 → msg_seq (write_header secret callerid destport seq m) ≡ seq
    unfolding write_header msg_seq set_secret set_callerid set_port set_seq
    seq-write_header h = field_self 7 2 seq _ h (
        omega (
          arith,
          length-write_at 5 (le_bytes 2 destport)
              (write_at 4 (le_bytes 1 callerid) (write_at 0 (le_bytes 4 secret) m)),
          length-write_at 4 (le_bytes 1 callerid) (write_at 0 (le_bytes 4 secret) m),
          length-write_at 0 (le_bytes 4 secret) m,
        ))

  pub drop-write_header :
      (p : ℕ) → header_len ≤ p → drop p (write_header secret callerid destport seq m) ≡ drop p m
  unfolding write_header set_secret set_callerid set_port set_seq
  drop-write_header p h =
      drop-write_at_after 7 p (le_bytes 2 seq) _ (omega (arith, length-le_bytes 2 seq))
      ∙ drop-write_at_after 5 p (le_bytes 2 destport) _ (omega (arith, length-le_bytes 2 destport))
      ∙ drop-write_at_after 4 p (le_bytes 1 callerid) _ (omega (arith, length-le_bytes 1 callerid))
      ∙ drop-write_at_after 0 p (le_bytes 4 secret) m (omega (arith, length-le_bytes 4 secret))

-- What a packed message of length `n` in `m` says.
pub record Packed (n secret callerid destport seq : ℕ) (msg : Bytes) (m : Bytes) : Type 0 where
  pub len : n ≡ header_len + length msg
  pub has_secret : msg_secret m ≡ secret
  pub has_callerid : msg_callerid m ≡ callerid
  pub has_port : msg_port m ≡ destport
  pub has_seq : msg_seq m ≡ seq
  pub payload : slice header_len (length msg) m ≡ msg

-- Reads below the payload do not see it.
payload-keeps :
    (p n : ℕ) (bs m : Bytes)
    → p + n ≤ header_len
    → le_value (slice p n (write_at header_len bs m)) ≡ le_value (slice p n m)
payload-keeps p n bs m h = ap le_value (slice-write_at_before header_len p n bs m h)

module _ (destbuf : Bytes) (maxlen secret callerid destport seq : ℕ) (msg : Bytes) where
  packmsg_fits :
      header_len + length msg ≤ maxlen
      → maxlen < 2 ^ 64
      → packmsg destbuf maxlen secret callerid destport seq msg (length msg) ≡ (
        header_len + length msg,
        write_at header_len msg (write_header secret callerid destport seq destbuf),
      )
  unfolding packmsg
  packmsg_fits fits small =
      let size : add_size header_len (length msg) ≡ header_len + length msg = omega arith in
      rw (size, ge→ltb maxlen (header_len + length msg) fits, take_all (length msg) msg (le_refl _))

  -- If header and message fit into the buffer, then `packmsg` returns their length, each header
  -- field and the message are read back as they were given, and the buffer keeps its size and its
  -- bytes behind the message.
  pub packmsg-Packed :
      secret < 2 ^ 32
      → callerid < 2 ^ 8
      → destport < 2 ^ 16
      → seq < 2 ^ 16
      → header_len + length msg ≤ maxlen
      → maxlen ≤ length destbuf
      → maxlen < 2 ^ 64
      → let (n, m) = packmsg destbuf maxlen secret callerid destport seq msg (length msg) in
        Packed n secret callerid destport seq msg m
        × (length m ≡ length destbuf)
        × (drop n m ≡ drop n destbuf)
  unfolding msg_secret msg_callerid msg_port msg_seq
  packmsg-Packed hs hc hp hq fits inbuf small = rw (packmsg_fits fits small) (
    record {
      len = refl;
      has_secret =
          payload-keeps 0 4 msg h (omega arith)
          ∙ secret-write_header secret callerid destport seq destbuf room hs;
      has_callerid =
          payload-keeps 4 1 msg h (omega arith)
          ∙ callerid-write_header secret callerid destport seq destbuf room hc;
      has_port =
          payload-keeps 5 2 msg h (omega arith)
          ∙ port-write_header secret callerid destport seq destbuf room hp;
      has_seq =
          payload-keeps 7 2 msg h (omega arith)
          ∙ seq-write_header secret callerid destport seq destbuf room hq;
      payload = slice-write_at_self header_len msg h (length msg) refl (omega (arith, sized));
    },
    length-write_at header_len msg h ∙ sized,
    drop-write_at_after header_len (header_len + length msg) msg h (omega arith)
        ∙ drop-write_header secret callerid destport seq destbuf _ (omega arith),
  )
    where
      h : Bytes
      h = write_header secret callerid destport seq destbuf

      room : header_len ≤ length destbuf
      room = omega arith

      sized : length h ≡ length destbuf
      sized = length-write_header secret callerid destport seq destbuf
