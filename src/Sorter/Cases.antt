-- ===== src/Sorter/Cases.antt =====
-- The paths of a round, as one rule.
use libov.Prelude.{
  ◌≡◌, ◌⊎◌, inl, inr, refl, Bool, true, false, ◌&&◌, List, [], ◌∷◌, leb, Bool-cases,
}
use libov.Protocol.Port
use libov.Message.Buffer.{MsgBuf, copy}
use libov.Sorter.{Store, to_buf1, to_buf2, delta, is_dropout, is_late, holds_earlier, receive}
use libov.Sorter.Rounds.{
  used, step_out, after_special, after_hold, after_deliver, after_first, receive_special_idle,
  receive_special_held, receive_dropout, receive_deliver_idle, receive_deliver_held,
  receive_release,
}

and_false : (a b : Bool) → (a ≡ false) ⊎ (b ≡ false) → (a && b) ≡ false
and_false false b h = refl
and_false true b (inl e) = cc
and_false true b (inr e) = e

module _ (handle : MsgBuf → MsgBuf) (quiet : (b : MsgBuf) → (handle b).valid ≡ false) (st : Store)
    (m : MsgBuf) (valid : m.valid ≡ true) where
  -- A property holds of the round if it holds on each of its paths.
  pub receive_cases {ℓ} :
      (P : List MsgBuf × Store × Bool → Type ℓ)
      → st.buf2.valid ≡ false
      → (leb m.destport Port.maxspecialport ≡ true
          → st.buf1.valid ≡ false
          → P (used m ∷ [], (after_special handle st m), true))
      → (leb m.destport Port.maxspecialport ≡ true
          → st.buf1.valid ≡ true
          → P (
            used m ∷ used st.buf1 ∷ [],
            step_out handle (after_special handle st m) to_buf1 st.buf1.cid,
            true,
          ))
      → (leb m.destport Port.maxspecialport ≡ false
          → is_dropout (delta st.seq_in m) (delta st.seq_out m) ≡ true
          → P ([], (after_hold handle st m), true))
      → (leb m.destport Port.maxspecialport ≡ false
          → is_dropout (delta st.seq_in m) (delta st.seq_out m) ≡ false
          → st.buf1.valid ≡ false
          → P (used m ∷ [], (after_deliver handle st m), true))
      → (leb m.destport Port.maxspecialport ≡ false
          → is_dropout (delta st.seq_in m) (delta st.seq_out m) ≡ false
          → st.buf1.valid ≡ true
          → P (
            used m ∷ used st.buf1 ∷ [],
            step_out handle (after_deliver handle st m) to_buf1 st.buf1.cid,
            true,
          ))
      → (leb m.destport Port.maxspecialport ≡ false
          → is_dropout (delta st.seq_in m) (delta st.seq_out m) ≡ false
          → st.buf1.valid ≡ true
          → P (
            used st.buf1 ∷ used (copy st.buf2 m) ∷ [],
            step_out handle (after_first handle st m) to_buf2 m.cid,
            true,
          ))
      → P (receive handle st m)
  receive_cases P k special_idle special_held dropout idle held release =
      elim (Bool-cases (leb m.destport Port.maxspecialport)) [
        | inl special ↦ elim (Bool-cases st.buf1.valid) [
          | inl full ↦
              rw (receive_special_held handle quiet st m valid special full k)
                (special_held special full)
          | inr empty ↦
              rw (receive_special_idle handle quiet st m valid special empty k)
                (special_idle special empty)
        ]
        | inr plain ↦ elim (Bool-cases (is_dropout (delta st.seq_in m) (delta st.seq_out m))) [
          | inl gap ↦ rw (receive_dropout handle quiet st m valid plain gap) (dropout plain gap)
          | inr tight ↦
              data_case plain tight (Bool-cases st.buf1.valid)
                (Bool-cases (is_late (delta st.seq_in m) (delta st.seq_out m)))
                (Bool-cases (holds_earlier st m))
        ]
      ]
    where
      data_case :
          leb m.destport Port.maxspecialport ≡ false
          → is_dropout (delta st.seq_in m) (delta st.seq_out m) ≡ false
          → (st.buf1.valid ≡ true) ⊎ (st.buf1.valid ≡ false)
          → (is_late (delta st.seq_in m) (delta st.seq_out m) ≡ true)
            ⊎ (is_late (delta st.seq_in m) (delta st.seq_out m) ≡ false)
          → (holds_earlier st m ≡ true) ⊎ (holds_earlier st m ≡ false)
          → P (receive handle st m)
      data_case plain tight (inr empty) l h =
          rw
            (receive_deliver_idle handle quiet st m valid plain tight
              (and_false (is_late (delta st.seq_in m) (delta st.seq_out m)) (holds_earlier st m)
                (inr (rw empty)))
              empty k)
            (idle plain tight empty)
      data_case plain tight (inl full) (inl late) (inl earlier) =
          rw (receive_release handle quiet st m valid plain tight late earlier)
            (release plain tight full)
      data_case plain tight (inl full) (inr early) h =
          rw
            (receive_deliver_held handle quiet st m valid plain tight
              (and_false (is_late (delta st.seq_in m) (delta st.seq_out m)) (holds_earlier st m)
                (inl early))
              full k)
            (held plain tight full)
      data_case plain tight (inl full) (inl late) (inr later) =
          rw
            (receive_deliver_held handle quiet st m valid plain tight
              (and_false (is_late (delta st.seq_in m) (delta st.seq_out m)) (holds_earlier st m)
                (inr later))
              full k)
            (held plain tight full)
