-- ===== src/Sorter/Rounds.antt =====
-- One round of `sendsrv`, from a received message to the empty hand: which messages come out, and the
-- store that is left, on each path through the sorter.
use libov.Prelude.{ℕ, suc, ◌≡◌, refl, ap, ◌∙◌, true, false, ◌&&◌, [], ◌∷◌, leb}
use libov.Protocol.Port
use libov.Message.Buffer.{MsgBuf, copy}
use libov.Sorter.{
  Store, Ref, to_input, to_buf1, to_buf2, deref, assign, invalidate, delta, account, is_dropout,
  is_late, holds_earlier, hold, hand_out, release_held, process, drain, receive,
}
use libov.Sorter.Steps.{
  accounted, process_special, process_dropout, process_release, process_deliver, process_flush1,
  process_flush2, process_empty, drain_more, drain_done,
}

-- A message as it is handed out: marked as used.
abbrev pub used : MsgBuf → MsgBuf
used b = record b { valid = false }

-- The caller's buffer is filled.
abbrev pub arrive : Store → MsgBuf → Store
arrive st m = record st { input = m }

deref-hand_out : (st : Store) (q : Ref) (c : ℕ) → deref (hand_out st q c).2 q ≡ used (deref st q)
unfolding hand_out
deref-hand_out st to_input c = refl
deref-hand_out st to_buf1 c = refl
deref-hand_out st to_buf2 c = refl

module _ (handle : MsgBuf → MsgBuf) where
  -- The store after the message in `q` was handed out and handled.
  abbrev pub step_out : Store → Ref → ℕ → Store
  step_out st q cid = assign (hand_out st q cid).2 q (handle (deref (hand_out st q cid).2 q))

  drain-hand_out :
      (fuel : ℕ) (st : Store) (p q : Ref) (st0 : Store) (c : ℕ)
      → process st p ≡ hand_out st0 q c
      → let rest = drain handle fuel (step_out st0 q c) q in
        drain handle (suc fuel) st p ≡ (used (deref st0 q) ∷ rest.0, rest.1, rest.2)
  unfolding hand_out
  drain-hand_out fuel st p q st0 c e =
      drain_more handle fuel st p q (hand_out st0 q c).2 e
      ∙ ap
          (λ b. (
            b ∷ (drain handle fuel (step_out st0 q c) q).0,
            (drain handle fuel (step_out st0 q c) q).1,
            (drain handle fuel (step_out st0 q c) q).2,
          ))
          (deref-hand_out st0 q c)

  -- The store after each path.
  module _ (st : Store) (m : MsgBuf) where
    abbrev pub after_special : Store
    after_special = assign (invalidate (arrive st m) to_input) to_input (handle (used m))

    abbrev pub after_hold : Store
    after_hold = invalidate (record (account (arrive st m) m) { buf1 = copy st.buf1 m }) to_input

    abbrev pub after_deliver : Store
    after_deliver = step_out (accounted (arrive st m) m) to_input m.cid

    abbrev pub after_first : Store
    after_first =
        step_out (record (accounted (arrive st m) m) { buf2 = copy st.buf2 m }) to_buf1 m.cid

  module _ (quiet : (b : MsgBuf) → (handle b).valid ≡ false) where
    deref-step_out : (st : Store) (q : Ref) (c : ℕ) → (deref (step_out st q c) q).valid ≡ false
    deref-step_out st to_input c = quiet _
    deref-step_out st to_buf1 c = quiet _
    deref-step_out st to_buf2 c = quiet _

    module _ (fuel : ℕ) (st : Store) (p : Ref) (gone : (deref st p).valid ≡ false) where
      drain_idle :
          st.buf1.valid ≡ false
          → st.buf2.valid ≡ false
          → drain handle (suc fuel) st p ≡ ([], st, true)
      drain_idle h k = drain_done handle fuel st p p st (process_empty st p gone h k)

    module _ (fuel : ℕ) (st : Store) (p : Ref) (gone : (deref st p).valid ≡ false) where
      drain_second :
          st.buf1.valid ≡ false
          → st.buf2.valid ≡ true
          → drain handle (suc (suc fuel)) st p
            ≡ (used st.buf2 ∷ [], step_out st to_buf2 st.buf2.cid, true)
      unfolding hand_out
      drain_second h k =
          drain-hand_out (suc fuel) st p to_buf2 st st.buf2.cid (process_flush2 st p gone h k)
          ∙ ap (λ r. (used st.buf2 ∷ r.0, r.1, r.2))
              (drain_idle fuel (step_out st to_buf2 st.buf2.cid) to_buf2 (quiet _) h (quiet _))

      drain_first :
          st.buf1.valid ≡ true
          → st.buf2.valid ≡ false
          → drain handle (suc (suc fuel)) st p
            ≡ (used st.buf1 ∷ [], step_out st to_buf1 st.buf1.cid, true)
      unfolding hand_out
      drain_first h k =
          drain-hand_out (suc fuel) st p to_buf1 st st.buf1.cid (process_flush1 st p gone h)
          ∙ ap (λ r. (used st.buf1 ∷ r.0, r.1, r.2))
              (drain_idle fuel (step_out st to_buf1 st.buf1.cid) to_buf1 (quiet _) (quiet _) k)

    module _ (st : Store) (m : MsgBuf) (valid : m.valid ≡ true) where
      pub receive_special_idle :
          leb m.destport Port.maxspecialport ≡ true
          → st.buf1.valid ≡ false
          → st.buf2.valid ≡ false
          → receive handle st m ≡ (used m ∷ [], (after_special st m), true)
      unfolding receive
      receive_special_idle special h k =
          drain_more handle 3 (arrive st m) to_input to_input _
            (process_special (arrive st m) valid special)
          ∙ ap (λ r. (used m ∷ r.0, r.1, r.2))
              (drain_idle 2 (after_special st m) to_input (quiet _) h k)

      pub receive_special_held :
          leb m.destport Port.maxspecialport ≡ true
          → st.buf1.valid ≡ true
          → st.buf2.valid ≡ false
          → receive handle st m
            ≡ (used m ∷ used st.buf1 ∷ [], step_out (after_special st m) to_buf1 st.buf1.cid, true)
      unfolding receive
      receive_special_held special h k =
          drain_more handle 3 (arrive st m) to_input to_input _
            (process_special (arrive st m) valid special)
          ∙ ap (λ r. (used m ∷ r.0, r.1, r.2))
              (drain_first 1 (after_special st m) to_input (quiet _) h k)

      module _ (plain : leb m.destport Port.maxspecialport ≡ false) where
        -- The message is put by: nothing comes out.
        pub receive_dropout :
            is_dropout (delta st.seq_in m) (delta st.seq_out m) ≡ true
            → receive handle st m ≡ ([], (after_hold st m), true)
        unfolding receive hold account
        receive_dropout gap =
            drain_done handle 3 (arrive st m) to_input to_input _
              (process_dropout (arrive st m) valid plain gap)

        module _ (gap : is_dropout (delta st.seq_in m) (delta st.seq_out m) ≡ false) where
          module _
              (wait : (is_late (delta st.seq_in m) (delta st.seq_out m) && holds_earlier st m)
                ≡ false) where
            deliver_first :
                let rest = drain handle 3 (after_deliver st m) to_input in
                receive handle st m ≡ (used m ∷ rest.0, rest.1, rest.2)
            unfolding receive account
            deliver_first =
                drain-hand_out 3 (arrive st m) to_input to_input (accounted (arrive st m) m) m.cid
                  (process_deliver (arrive st m) valid plain gap wait)

            -- The message goes out, and no message was held.
            pub receive_deliver_idle :
                st.buf1.valid ≡ false
                → st.buf2.valid ≡ false
                → receive handle st m ≡ (used m ∷ [], (after_deliver st m), true)
            unfolding hand_out account
            receive_deliver_idle h k =
                deliver_first
                ∙ ap (λ r. (used m ∷ r.0, r.1, r.2))
                    (drain_idle 2 (after_deliver st m) to_input (quiet _) h k)

            -- The message goes out, and the one that was held follows.
            pub receive_deliver_held :
                st.buf1.valid ≡ true
                → st.buf2.valid ≡ false
                → receive handle st m ≡ (
                  used m ∷ used st.buf1 ∷ [],
                  step_out (after_deliver st m) to_buf1 st.buf1.cid,
                  true,
                )
            unfolding hand_out account
            receive_deliver_held h k =
                deliver_first
                ∙ ap (λ r. (used m ∷ r.0, r.1, r.2))
                    (drain_first 1 (after_deliver st m) to_input (quiet _) h k)

          -- The held message goes out first, then the new one, by way of the second buffer.
          pub receive_release :
              is_late (delta st.seq_in m) (delta st.seq_out m) ≡ true
              → holds_earlier st m ≡ true
              → receive handle st m ≡ (
                used st.buf1 ∷ used (copy st.buf2 m) ∷ [],
                step_out (after_first st m) to_buf2 m.cid,
                true,
              )
          unfolding receive release_held hand_out account copy
          receive_release late held =
              drain-hand_out 3 (arrive st m) to_input to_buf1
                (record (accounted (arrive st m) m) { buf2 = copy st.buf2 m }) m.cid
                (process_release (arrive st m) valid plain gap late held)
              ∙ ap (λ r. (used st.buf1 ∷ r.0, r.1, r.2))
                  (drain_second 1 (after_first st m) to_buf1 (quiet _) (quiet _) valid)
