-- ===== src/Sorter/Reorder.antt =====
-- A pair of swapped messages, and a message that was lost, at the output of the sorter.
use libov.Prelude.{
  ℕ, ◌+◌, ◌-◌, ◌%◌, ◌<◌, ◌≡◌, ◌≢◌, ◌∙◌, refl, true, false, List, [], ◌∷◌, ◌++◌, ◌==◌, if◌then◌else◌,
  arith, lt→ltb, ge→ltb, ==_iff, sym, Bool-cases, inl, inr,
}
use mathlib.Core.Bool.{false≢true}
use libov.Protocol.Port
use libov.Message.Buffer.{MsgBuf, copy}
use libov.Sorter.{
  Store, to_buf1, seq_at, delta, account, is_dropout, is_late, holds_earlier, hand_out, receive,
  receive_all,
}
use libov.Sorter.Signed.{slt}
use libov.Sorter.Rounds.{
  used, step_out, after_hold, after_deliver, receive_dropout, receive_deliver_held, receive_release,
}
use libov.Sorter.Order.{
  ahead, Arrives, Ready, last_of, touched_at, delta_at, plain_of, and_comm_false,
}

receive_all_two :
    (handle : MsgBuf → MsgBuf) (st s t : Store) (a b : MsgBuf) (out out' : List MsgBuf)
    → receive handle st a ≡ (out, s, true)
    → receive handle s b ≡ (out', t, true)
    → receive_all handle st (a ∷ b ∷ []) ≡ (out ++ (out' ++ []), t)
unfolding receive_all
receive_all_two handle st s t a b out out' e f = rw (e, receive_all) (rw (f, receive_all))

-- The signed order of neighbours.
at_top : (n : ℕ) → n < 0x10000 → (ahead n 2 == 0x7fff) ≡ true → slt (ahead n 2) (ahead n 3) ≡ false
at_top n small e = ge→ltb _ _ (let h = (==_iff (ahead n 2) 0x7fff).0 e in omega arith)

below_top :
    (n : ℕ) → n < 0x10000 → (ahead n 2 == 0x7fff) ≡ false → slt (ahead n 2) (ahead n 3) ≡ true
below_top n small e = lt→ltb _ _ (
    let h : ahead n 2 ≢ 0x7fff = λ q. false≢true (sym e ∙ (==_iff (ahead n 2) 0x7fff).1 q) in
    omega arith)

module _ (handle : MsgBuf → MsgBuf) (quiet : (b : MsgBuf) → (handle b).valid ≡ false) (cid port : ℕ)
    (plain : Port.maxspecialport < port) (st : Store) (n : ℕ) (small : n < 0x10000)
    (r : Ready cid port n st) (in_step : seq_at st.seq_in cid port ≡ n) (m2 : MsgBuf)
    (a2 : Arrives cid port (ahead n 2) m2) where
  -- With one number missing, the message is held.
  receive_ahead : receive handle st m2 ≡ ([], after_hold handle st m2, true)
  receive_ahead =
      let two : (ahead n 2 + 0x10000 - n) % 0x10000 ≡ 2 = omega arith in
      receive_dropout handle quiet st m2 a2.is_valid
        (plain_of handle quiet cid port plain m2 (ahead n 2) a2)
        (rw
          (
            delta_at st.seq_in m2 cid port (ahead n 2) n a2 in_step,
            delta_at st.seq_out m2 cid port (ahead n 2) n a2 r.last_out,
            two,
          )
          (ground arith))

  -- What the streams look like then.
  in_held : seq_at (after_hold handle st m2).seq_in cid port ≡ ahead n 2
  unfolding account
  in_held = last_of st.seq_in m2 cid port (ahead n 2) a2

  out_held : seq_at (after_hold handle st m2).seq_out cid port ≡ n
  unfolding account
  out_held = touched_at st.seq_out m2 cid port (ahead n 2) a2 ∙ r.last_out

  -- The number that was missing arrives late.
  module _ (m1 : MsgBuf) (a1 : Arrives cid port (ahead n 1) m1) where
    abbrev after_swap : Store
    after_swap =
        step_out handle (after_deliver handle (after_hold handle st m2) m1) to_buf1
          (copy st.buf1 m2).cid

    receive_behind :
        receive handle (after_hold handle st m2) m1
        ≡ (used m1 ∷ used (copy st.buf1 m2) ∷ [], after_swap, true)
    unfolding copy account
    receive_behind =
        let one : (ahead n 1 + 0x10000 - n) % 0x10000 ≡ 1 = omega arith in
        let back : (ahead n 1 + 0x10000 - ahead n 2) % 0x10000 ≡ 0xffff = omega arith in
        receive_deliver_held handle quiet (after_hold handle st m2) m1 a1.is_valid
          (plain_of handle quiet cid port plain m1 (ahead n 1) a1)
          (rw
            (
              delta_at (after_hold handle st m2).seq_in m1 cid port (ahead n 1) (ahead n 2) a1
                  in_held,
              delta_at (after_hold handle st m2).seq_out m1 cid port (ahead n 1) n a1 out_held,
              one,
              back,
            )
            (ground arith))
          (rw
            (
              delta_at (after_hold handle st m2).seq_in m1 cid port (ahead n 1) (ahead n 2) a1
                  in_held,
              delta_at (after_hold handle st m2).seq_out m1 cid port (ahead n 1) n a1 out_held,
              one,
              back,
            )
            (ground arith))
          a2.is_valid r.empty2

    -- Two messages that arrive in the wrong order, while nothing is held, are handed out in the right
    -- one: the second in number is held until the first has gone out. Nothing is held afterwards, and
    -- the stream goes on behind the second.
    pub receive_all-swapped :
        ((receive_all handle st (m2 ∷ m1 ∷ [])).0 ≡ used m1 ∷ used (copy st.buf1 m2) ∷ [])
        × Ready cid port (ahead n 2) (receive_all handle st (m2 ∷ m1 ∷ [])).1
    unfolding hand_out account copy
    receive_all-swapped =
        rw
          (receive_all_two handle st (after_hold handle st m2) after_swap m2 m1 []
            (used m1 ∷ used (copy st.buf1 m2) ∷ []) receive_ahead receive_behind)
          (
            refl,
            record {
              empty1 = quiet _;
              empty2 = r.empty2;
              last_out =
                  last_of (after_deliver handle (after_hold handle st m2) m1).seq_out m2 cid port
                    (ahead n 2) a2;
            },
          )

  -- The number that was missing does not arrive.
  module _ (m3 : MsgBuf) (a3 : Arrives cid port (ahead n 3) m3) where
    behind_gap :
        (is_dropout
            (delta (after_hold handle st m2).seq_in m3)
            (delta (after_hold handle st m2).seq_out m3)
          ≡ false)
        × (is_late
              (delta (after_hold handle st m2).seq_in m3)
              (delta (after_hold handle st m2).seq_out m3)
            ≡ true)
    behind_gap =
        let one : (ahead n 3 + 0x10000 - ahead n 2) % 0x10000 ≡ 1 = omega arith in
        let three : (ahead n 3 + 0x10000 - n) % 0x10000 ≡ 3 = omega arith in
        rw
          (
            delta_at (after_hold handle st m2).seq_in m3 cid port (ahead n 3) (ahead n 2) a3
                in_held,
            delta_at (after_hold handle st m2).seq_out m3 cid port (ahead n 3) n a3 out_held,
            one,
            three,
          )
          (ground arith, ground arith)

    earlier : holds_earlier (after_hold handle st m2) m3 ≡ slt (ahead n 2) (ahead n 3)
    unfolding copy
    earlier =
        rw (a2.is_valid, a2.from_cid, a2.to_port, a2.with_seq, a3.from_cid, a3.to_port, a3.with_seq)
          (ground arith)

    -- A message is lost, and the two that follow it arrive. They are handed out in the order of their
    -- numbers, except where the first of them has the largest number, 32767: there the signed
    -- comparison takes the next number, -32768, for an earlier one, and the two change places.
    pub receive_all-lost : (receive_all handle st (m2 ∷ m3 ∷ [])).0 ≡ (
        if ahead n 2 == 0x7fff
        then used m3 ∷ used (copy st.buf1 m2) ∷ []
        else used (copy st.buf1 m2) ∷ used (copy st.buf2 m3) ∷ [])
    unfolding copy account
    receive_all-lost = elim (Bool-cases (ahead n 2 == 0x7fff)) [
      | inl top ↦ rw (
        top,
        receive_all_two handle st (after_hold handle st m2) _ m2 m3 [] _ receive_ahead (
            receive_deliver_held handle quiet (after_hold handle st m2) m3 a3.is_valid
              (plain_of handle quiet cid port plain m3 (ahead n 3) a3) behind_gap.0
              (and_comm_false
                (is_late (delta (after_hold handle st m2).seq_in m3)
                  (delta (after_hold handle st m2).seq_out m3))
                (holds_earlier (after_hold handle st m2) m3) (earlier ∙ at_top n small top))
              a2.is_valid r.empty2),
      )
      | inr below ↦ rw (
        below,
        receive_all_two handle st (after_hold handle st m2) _ m2 m3 [] _ receive_ahead (
            receive_release handle quiet (after_hold handle st m2) m3 a3.is_valid
              (plain_of handle quiet cid port plain m3 (ahead n 3) a3) behind_gap.0 behind_gap.1
              (earlier ∙ below_top n small below)),
      )
    ]
