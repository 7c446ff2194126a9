-- ===== src/Message/Edit.antt =====
-- What `addmsg` and writes into the header or the data make of a packed message (src/common.cc).
use libov.Prelude.{
  ℕ, suc, ◌+◌, ◌^◌, ◌≤◌, ◌<◌, ◌≡◌, ◌∙◌, refl, sym, ap, [], ◌∷◌, ◌++◌, length, take, drop, slice,
  write_at, le_bytes, le_value, arith, ge→ltb, take_all, length-append, length-le_bytes, drop-drop,
  slice-append, length-write_at, le_value-le_bytes, slice-write_at_self, slice-write_at_before,
  drop-write_at_after, add_size,
}
use native.Mathlib.Nat.{le_refl}
use libov.Protocol.{header_len}
use libov.Message.{
  Bytes, msg_secret, msg_callerid, msg_port, msg_seq, set_callerid, set_port, addmsg,
}
use libov.Message.Laws.{Packed}

pub take_tail : (k x : ℕ) (rest m : Bytes) → take (suc k) m ≡ x ∷ rest → take k (drop 1 m) ≡ rest
take_tail k x rest [] h = cc
take_tail k x rest (y ∷ m) h = ap (drop 1) h

-- A read behind a write.
slice_behind :
    (o p n : ℕ) (bs m : Bytes) → o + length bs ≤ p → slice p n (write_at o bs m) ≡ slice p n m
slice_behind o p n bs m h = ap (take n) (drop-write_at_after o p bs m h)

module _ {n secret callerid destport seq : ℕ} {msg m : Bytes}
    (p : Packed n secret callerid destport seq msg m) where
  pub addmsg-Packed :
      (maxlen : ℕ) (more : Bytes)
      → n + length more ≤ maxlen
      → maxlen ≤ length m
      → maxlen < 2 ^ 64
      → let (n', m') = addmsg m maxlen n more (length more) in
        Packed n' secret callerid destport seq (msg ++ more) m' × (length m' ≡ length m)
  unfolding addmsg msg_secret msg_callerid msg_port msg_seq
  addmsg-Packed maxlen more fits room small =
      let size : add_size n (length more) ≡ n + length more = omega arith in
      rw (size, ge→ltb maxlen (n + length more) fits, take_all (length more) more (le_refl _))
        (
          record {
            len = omega (arith, p.len, length-append msg more);
            has_secret = before 0 4 (omega (arith, p.len)) ∙ p.has_secret;
            has_callerid = before 4 1 (omega (arith, p.len)) ∙ p.has_callerid;
            has_port = before 5 2 (omega (arith, p.len)) ∙ p.has_port;
            has_seq = before 7 2 (omega (arith, p.len)) ∙ p.has_seq;
            payload = whole;
          },
          length-write_at n more m,
        )
    where
      m' : Bytes
      m' = write_at n more m

      before : (q k : ℕ) → q + k ≤ n → le_value (slice q k m') ≡ le_value (slice q k m)
      before q k h = ap le_value (slice-write_at_before n q k more m h)

      old : slice header_len (length msg) m' ≡ msg
      old =
          slice-write_at_before n header_len (length msg) more m (omega (arith, p.len)) ∙ p.payload

      new : slice (header_len + length msg) (length more) m' ≡ more
      new =
          ap (λ o. slice o (length more) m') (sym p.len)
          ∙ slice-write_at_self n more m (length more) refl (omega arith)

      whole : slice header_len (length (msg ++ more)) m' ≡ msg ++ more
      whole =
          ap (λ k. slice header_len k m') (length-append msg more)
          ∙ sym (slice-append header_len (length msg) (length more) m')
          ∙ (λ i. old i ++ new i)

  pub set_callerid-Packed :
      (c : ℕ)
      → c < 2 ^ 8
      → header_len ≤ length m
      → Packed n secret c destport seq msg (set_callerid c m)
        × (length (set_callerid c m) ≡ length m)
  unfolding set_callerid msg_secret msg_callerid msg_port msg_seq
  set_callerid-Packed c fits room = (
    record {
      len = p.len;
      has_secret = ap le_value (slice-write_at_before 4 0 4 bs m (omega arith)) ∙ p.has_secret;
      has_callerid =
          ap le_value (slice-write_at_self 4 bs m 1 size (omega arith))
          ∙ le_value-le_bytes 1 c (omega arith);
      has_port = ap le_value (slice_behind 4 5 2 bs m (omega (arith, size))) ∙ p.has_port;
      has_seq = ap le_value (slice_behind 4 7 2 bs m (omega (arith, size))) ∙ p.has_seq;
      payload = slice_behind 4 header_len (length msg) bs m (omega (arith, size)) ∙ p.payload;
    },
    length-write_at 4 bs m,
  )
    where
      bs : Bytes
      bs = le_bytes 1 c

      size : length bs ≡ 1
      size = length-le_bytes 1 c

  pub set_port-Packed :
      (q : ℕ)
      → q < 2 ^ 16
      → header_len ≤ length m
      → Packed n secret callerid q seq msg (set_port q m) × (length (set_port q m) ≡ length m)
  unfolding set_port msg_secret msg_callerid msg_port msg_seq
  set_port-Packed q fits room = (
    record {
      len = p.len;
      has_secret = ap le_value (slice-write_at_before 5 0 4 bs m (omega arith)) ∙ p.has_secret;
      has_callerid = ap le_value (slice-write_at_before 5 4 1 bs m (omega arith)) ∙ p.has_callerid;
      has_port =
          ap le_value (slice-write_at_self 5 bs m 2 size (omega arith))
          ∙ le_value-le_bytes 2 q (omega arith);
      has_seq = ap le_value (slice_behind 5 7 2 bs m (omega (arith, size))) ∙ p.has_seq;
      payload = slice_behind 5 header_len (length msg) bs m (omega (arith, size)) ∙ p.payload;
    },
    length-write_at 5 bs m,
  )
    where
      bs : Bytes
      bs = le_bytes 2 q

      size : length bs ≡ 2
      size = length-le_bytes 2 q

-- The first byte of the data is written over.
pub write_first-Packed :
    {n secret callerid destport seq x : ℕ} {rest m : Bytes} (y : ℕ)
    → Packed n secret callerid destport seq (x ∷ rest) m
    → n ≤ length m
    → let m' = write_at header_len (y ∷ []) m in
      Packed n secret callerid destport seq (y ∷ rest) m' × (length m' ≡ length m)
unfolding msg_secret msg_callerid msg_port msg_seq
write_first-Packed {n = n} {x = x} {rest = rest} {m = m} y p room = (
  record {
    len = p.len;
    has_secret = ap le_value (slice-write_at_before 9 0 4 bs m (omega arith)) ∙ p.has_secret;
    has_callerid = ap le_value (slice-write_at_before 9 4 1 bs m (omega arith)) ∙ p.has_callerid;
    has_port = ap le_value (slice-write_at_before 9 5 2 bs m (omega arith)) ∙ p.has_port;
    has_seq = ap le_value (slice-write_at_before 9 7 2 bs m (omega arith)) ∙ p.has_seq;
    payload =
        ap (λ k. slice 9 k (write_at 9 bs m)) one_more
        ∙ sym (slice-append 9 1 (length rest) (write_at 9 bs m))
        ∙ (λ i. first i ++ behind i)
        ∙ ap (◌∷◌ y) same_rest;
  },
  length-write_at 9 bs m,
)
  where
    bs : Bytes
    bs = y ∷ []

    one_more : suc (length rest) ≡ 1 + length rest
    one_more = omega arith

    first : slice 9 1 (write_at 9 bs m) ≡ y ∷ []
    first = slice-write_at_self 9 bs m 1 refl (omega (arith, p.len))

    behind : slice 10 (length rest) (write_at 9 bs m) ≡ slice 10 (length rest) m
    behind = slice_behind 9 10 (length rest) bs m (omega arith)

    same_rest : slice 10 (length rest) m ≡ rest
    same_rest =
        ap (take (length rest)) (sym (drop-drop 9 1 m))
        ∙ take_tail (length rest) x rest (drop 9 m) p.payload
