-- ===== src/Sorter/Stats.antt =====
-- The counters of lost messages, over a whole history of a stream.
use mathlib.Core.Bool.{false≢true}
use libov.Prelude.{
  ℕ, ◌+◌, ◌%◌, ◌<◌, ◌≡◌, ◌≢◌, ◌∙◌, sym, true, false, List, [], ◌∷◌, leb, arith, length,
}
use libov.Protocol.Port
use libov.Message.Buffer.{MsgBuf, copy}
use libov.Sorter.{
  Ref, to_input, to_buf1, to_buf2, SeqMap, Stat, Store, seq_at, is_known, put_seq, delta, account,
  count_received, count_lost, hand_out, receive, receive_all,
}
use libov.Sorter.Signed.{diff16}
use libov.Sorter.Steps.{accounted}
use libov.Sorter.Rounds.{step_out, arrive, after_deliver, after_first}
use libov.Sorter.Order.{data_port}
use libov.Sorter.Cases.{receive_cases}

-- What a round does to the two counters of a device, and to the input side of a stream.
record Counted (st : Store) (m : MsgBuf) (after : Store) : Type 0 where
  spare : after.buf2.valid ≡ false
  lost :
      (after.stat m.cid).lost
      ≡ (count_lost
          (is_known st.seq_in m.cid m.destport)
          (delta st.seq_in m)
          (count_received (st.stat m.cid))).lost
  last : seq_at after.seq_in m.cid m.destport ≡ m.seq
  known : is_known after.seq_in m.cid m.destport ≡ true

known_of :
    (q : SeqMap) (c p s : ℕ)
    → (seq_at (put_seq q c p s) c p ≡ s) × (is_known (put_seq q c p s) c p ≡ true)
known_of q c p s = ground arith

-- Handing out counts no loss.
lost-step_out :
    (handle : MsgBuf → MsgBuf) (st : Store) (q : Ref) (c k : ℕ)
    → ((step_out handle st q c).stat k).lost ≡ (st.stat k).lost
unfolding hand_out
lost-step_out handle st to_input c k = ground arith
lost-step_out handle st to_buf1 c k = ground arith
lost-step_out handle st to_buf2 c k = ground arith

lost-account :
    (st : Store) (m : MsgBuf)
    → ((account st m).stat m.cid).lost
      ≡ (count_lost
          (is_known st.seq_in m.cid m.destport)
          (delta st.seq_in m)
          (count_received (st.stat m.cid))).lost
unfolding account
lost-account st m = ground arith

lost-accounted :
    (st : Store) (m : MsgBuf)
    → ((accounted st m).stat m.cid).lost
      ≡ (count_lost
          (is_known st.seq_in m.cid m.destport)
          (delta st.seq_in m)
          (count_received (st.stat m.cid))).lost
unfolding account
lost-accounted st m = ground arith

module _ (handle : MsgBuf → MsgBuf) (quiet : (b : MsgBuf) → (handle b).valid ≡ false) (st : Store)
    (m : MsgBuf) (valid : m.valid ≡ true) (plain : leb m.destport Port.maxspecialport ≡ false)
    (spare : st.buf2.valid ≡ false) where
  receive-Counted : Counted st m (receive handle st m).1
  unfolding hand_out account copy
  receive-Counted =
      let known = known_of st.seq_in m.cid m.destport m.seq in
      receive_cases handle quiet st m valid (λ r. Counted st m r.1) spare
        (λ special empty. absurd (false≢true (sym plain ∙ special)))
        (λ special full. absurd (false≢true (sym plain ∙ special)))
        (λ _ gap. record {
          spare = spare;
          lost = lost-account (arrive st m) m;
          last = known.0;
          known = known.1;
        })
        (λ _ tight empty. record {
          spare = spare;
          lost =
              lost-step_out handle (accounted (arrive st m) m) to_input m.cid m.cid
              ∙ lost-accounted (arrive st m) m;
          last = known.0;
          known = known.1;
        })
        (λ _ tight full. record {
          spare = spare;
          lost =
              lost-step_out handle (after_deliver handle st m) to_buf1 st.buf1.cid m.cid
              ∙ lost-step_out handle (accounted (arrive st m) m) to_input m.cid m.cid
              ∙ lost-accounted (arrive st m) m;
          last = known.0;
          known = known.1;
        })
        (λ _ tight full. record {
          spare = quiet _;
          lost =
              lost-step_out handle (after_first handle st m) to_buf2 m.cid m.cid
              ∙ lost-step_out handle (record (accounted (arrive st m) m) { buf2 = copy st.buf2 m })
                  to_buf1 m.cid m.cid
              ∙ lost-accounted (arrive st m) m;
          last = known.0;
          known = known.1;
        })

-- One message: `lost` grows by the distance to the last number, less one, modulo 2^16.
count_lost_mod :
    (s : Stat) (n k : ℕ)
    → n < 0x10000
    → k < 0x10000
    → k ≢ n
    → ((count_lost true (diff16 k n) s).lost + n + 1) % 0x10000 ≡ (s.lost + k) % 0x10000
count_lost_mod s n k hn hk ne = let d : diff16 k n ≢ 0 = omega arith in ground (arith, d)

-- Data messages of one stream, none of them with the number of the one before it.
abbrev pub NoRepeat : ℕ → ℕ → ℕ → List MsgBuf → Type 0
NoRepeat cid port n [] = Unit {0}
NoRepeat cid port n (m ∷ ms) =
    (m.valid ≡ true)
    × (m.cid ≡ cid)
    × (m.destport ≡ port)
    × (m.seq < 0x10000)
    × (m.seq ≢ n)
    × NoRepeat cid port m.seq ms

abbrev pub last_seq : ℕ → List MsgBuf → ℕ
last_seq n [] = n
last_seq n (m ∷ ms) = last_seq m.seq ms

-- The input side of a stream that has been seen, with `n` as its last number.
pub record Seen (cid port n : ℕ) (st : Store) : Type 0 where
  pub spare : st.buf2.valid ≡ false
  pub last : seq_at st.seq_in cid port ≡ n
  pub known : is_known st.seq_in cid port ≡ true

module _ (handle : MsgBuf → MsgBuf) (quiet : (b : MsgBuf) → (handle b).valid ≡ false) (cid port : ℕ)
    (plain : Port.maxspecialport < port) where
  receive-Seen :
      (st : Store) (n : ℕ) (m : MsgBuf)
      → n < 0x10000
      → m.valid ≡ true
      → m.cid ≡ cid
      → m.destport ≡ port
      → m.seq < 0x10000
      → m.seq ≢ n
      → Seen cid port n st
      → let after = (receive handle st m).1 in
        Seen cid port m.seq after
        × (((after.stat cid).lost + n + 1) % 0x10000 ≡ ((st.stat cid).lost + m.seq) % 0x10000)
  receive-Seen st n m hn valid ec ep hs ne s =
      let body : leb m.destport Port.maxspecialport ≡ false = rw ep (data_port port plain) in
      let c = receive-Counted handle quiet st m valid body s.spare in
      (
        record { spare = c.spare; last = rw (← ec, ← ep) c.last; known = rw (← ec, ← ep) c.known },
        rw (← ec, c.lost, ec, ep, s.known, s.last)
            (count_lost_mod (count_received (st.stat cid)) n m.seq hn hs ne),
      )

  -- Over any history of a stream in which no message has the number of the one before it, in whatever
  -- order they come, the counter `lost` of the device, the messages that came and the sequence number
  -- keep in step modulo 2^16: what was counted as lost is the distance from the first number to the
  -- last one less the count of messages.
  pub receive_all-lost_count :
      (st : Store) (n : ℕ) (ms : List MsgBuf)
      → n < 0x10000
      → Seen cid port n st
      → NoRepeat cid port n ms
      → (((receive_all handle st ms).1.stat cid).lost + n + length ms) % 0x10000
        ≡ ((st.stat cid).lost + last_seq n ms) % 0x10000
  unfolding receive_all
  receive_all-lost_count st n [] hn s h = omega arith
  receive_all-lost_count st n (m ∷ ms) hn s (v, ec, ep, hs, ne, h) =
      let one = receive-Seen st n m hn v ec ep hs ne s in
      let rest = receive_all-lost_count (receive handle st m).1 m.seq ms hs one.0 h in
      omega (arith, one.1, rest)
