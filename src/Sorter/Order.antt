-- ===== src/Sorter/Order.antt =====
-- In which order the messages of a stream are handed out.
use libov.Prelude.{
  ℕ, ◌+◌, ◌-◌, ◌%◌, ◌<◌, ◌≡◌, refl, ap, Bool, true, false, ◌&&◌, List, [], ◌∷◌, map, leb, arith,
}
use libov.Protocol.Port
use libov.Message.Buffer.{MsgBuf}
use libov.Sorter.{
  SeqMap, Store, seq_at, put_seq, delta, account, is_dropout, is_late, holds_earlier, hand_out,
  receive, receive_all,
}
use libov.Sorter.Rounds.{used, after_deliver, receive_deliver_idle}

-- The sequence number `k` steps after `n`.
abbrev pub ahead : ℕ → ℕ → ℕ
ahead n k = (n + k) % 0x10000

-- A received data message of the stream of device `cid` to port `port`, with number `s`.
pub record Arrives (cid port s : ℕ) (m : MsgBuf) : Type 0 where
  pub is_valid : m.valid ≡ true
  pub from_cid : m.cid ≡ cid
  pub to_port : m.destport ≡ port
  pub with_seq : m.seq ≡ s

-- Nothing is held, and `n` is the number that was handed out last in this stream.
pub record Ready (cid port n : ℕ) (st : Store) : Type 0 where
  pub empty1 : st.buf1.valid ≡ false
  pub empty2 : st.buf2.valid ≡ false
  pub last_out : seq_at st.seq_out cid port ≡ n

seq_at-put_seq : (q : SeqMap) (c p s : ℕ) → seq_at (put_seq q c p s) c p ≡ s
seq_at-put_seq q c p s = ground arith

-- The entry of a stream after a message of it was recorded.
pub last_of :
    (q : SeqMap) (m : MsgBuf) (c p s : ℕ)
    → Arrives c p s m
    → seq_at (put_seq q m.cid m.destport m.seq) c p ≡ s
last_of q m c p s a = rw (a.from_cid, a.to_port, a.with_seq) (seq_at-put_seq q c p s)

-- `deltaseq_const` leaves the number as it is.
abbrev pub touched : SeqMap → MsgBuf → SeqMap
touched q m = put_seq q m.cid m.destport (seq_at q m.cid m.destport)

pub touched_at :
    (q : SeqMap) (m : MsgBuf) (c p s : ℕ)
    → Arrives c p s m
    → seq_at (touched q m) c p ≡ seq_at q c p
touched_at q m c p s a = rw (a.from_cid, a.to_port) (seq_at-put_seq q c p (seq_at q c p))

pub data_port : (p : ℕ) → Port.maxspecialport < p → leb p Port.maxspecialport ≡ false
data_port p h = ground arith

pub delta_at :
    (q : SeqMap) (m : MsgBuf) (c p s n : ℕ)
    → Arrives c p s m
    → seq_at q c p ≡ n
    → delta q m ≡ (s + 0x10000 - n) % 0x10000
delta_at q m c p s n a e = rw (a.from_cid, a.to_port, a.with_seq, e)

-- A message right behind the last one leaves no gap, and nothing has to go before it.
next_no_dropout :
    (din n : ℕ) → n < 0x10000 → is_dropout din ((ahead n 1 + 0x10000 - n) % 0x10000) ≡ false
next_no_dropout din n h =
    let one : (ahead n 1 + 0x10000 - n) % 0x10000 ≡ 1 = omega arith in rw one (ground arith)

pub and_comm_false : (a b : Bool) → b ≡ false → (a && b) ≡ false
and_comm_false false b h = refl
and_comm_false true b h = h

module _ (handle : MsgBuf → MsgBuf) (quiet : (b : MsgBuf) → (handle b).valid ≡ false) (cid port : ℕ)
    (plain : Port.maxspecialport < port) where
  pub plain_of :
      (m : MsgBuf) (s : ℕ) → Arrives cid port s m → leb m.destport Port.maxspecialport ≡ false
  plain_of m s a = rw a.to_port (data_port port plain)

  module _ (st : Store) (m : MsgBuf) (n : ℕ) (small : n < 0x10000) where
    receive_next :
        Ready cid port n st
        → Arrives cid port (ahead n 1) m
        → receive handle st m ≡ (used m ∷ [], after_deliver handle st m, true)
    receive_next r a =
        receive_deliver_idle handle quiet st m a.is_valid (plain_of m _ a)
          (rw (delta_at st.seq_out m cid port (ahead n 1) n a r.last_out)
            (next_no_dropout (delta st.seq_in m) n small))
          (and_comm_false (is_late (delta st.seq_in m) (delta st.seq_out m)) (holds_earlier st m)
            (rw r.empty1))
          r.empty1 r.empty2

    Ready-next :
        Ready cid port n st
        → Arrives cid port (ahead n 1) m
        → Ready cid port (ahead n 1) (after_deliver handle st m)
    unfolding hand_out account
    Ready-next r a = record {
      empty1 = r.empty1;
      empty2 = r.empty2;
      last_out = last_of (touched st.seq_out m) m cid port (ahead n 1) a;
    }

-- Messages of one stream with consecutive numbers, the first of them right behind `n`.
abbrev pub Follows : ℕ → ℕ → ℕ → List MsgBuf → Type 0
Follows cid port n [] = Unit {0}
Follows cid port n (m ∷ ms) = Arrives cid port (ahead n 1) m × Follows cid port (ahead n 1) ms

module _ (handle : MsgBuf → MsgBuf) (quiet : (b : MsgBuf) → (handle b).valid ≡ false) (cid port : ℕ)
    (plain : Port.maxspecialport < port) where
  -- When nothing is held, the messages of a stream that arrive in the order of their numbers, from the
  -- one after the last that was handed out, are handed out at once and in that order, across the
  -- wrap of the 16 bit number too, and afterwards nothing is held.
  pub receive_all-in_order :
      (st : Store) (n : ℕ) (ms : List MsgBuf)
      → n < 0x10000
      → Ready cid port n st
      → Follows cid port n ms
      → ((receive_all handle st ms).0 ≡ map used ms)
        × ((receive_all handle st ms).1.buf1.valid ≡ false)
  unfolding receive_all
  receive_all-in_order st n [] small r f = (refl, r.empty1)
  receive_all-in_order st n (m ∷ ms) small r f =
      let rest =
        receive_all-in_order (after_deliver handle st m) (ahead n 1) ms (omega arith)
          (Ready-next handle quiet cid port plain st m n small r f.0) f.1 in
      rw (receive_next handle quiet cid port plain st m n small r f.0, receive_all)
        (ap (◌∷◌ (used m)) rest.0, rest.1)
