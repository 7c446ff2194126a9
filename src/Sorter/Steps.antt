-- ===== src/Sorter/Steps.antt =====
-- `process` on each of its branches, and the loop over it, as equations.
use libov.Prelude.{ℕ, suc, ◌≡◌, true, false, ◌&&◌, [], ◌∷◌, leb}
use libov.Protocol.Port
use libov.Message.Buffer.{MsgBuf}
use libov.Sorter.{
  Store, Ref, to_input, to_buf1, to_buf2, deref, assign, invalidate, update_stat, delta, account,
  count_seqerr_in, is_dropout, is_late, holds_earlier, hold, hand_out, release_held, process_data,
  flush, process, drain,
}

-- The store after the bookkeeping for a data message that is not held back.
abbrev pub accounted : Store → MsgBuf → Store
accounted st m = update_stat (account st m) m.cid (count_seqerr_in (delta st.seq_in m))

module _ (st : Store) (valid : st.input.valid ≡ true) where
  pub process_special :
      leb st.input.destport Port.maxspecialport ≡ true
      → process st to_input ≡ (true, to_input, invalidate st to_input)
  unfolding process
  process_special special = rw (valid, special)

  module _ (plain : leb st.input.destport Port.maxspecialport ≡ false) where
    pub process_dropout :
        is_dropout (delta st.seq_in st.input) (delta st.seq_out st.input) ≡ true
        → process st to_input ≡ hold (account st st.input) to_input st.input
    unfolding process process_data
    process_dropout gap = rw (valid, plain, gap)

    pub process_release :
        is_dropout (delta st.seq_in st.input) (delta st.seq_out st.input) ≡ false
        → is_late (delta st.seq_in st.input) (delta st.seq_out st.input) ≡ true
        → holds_earlier st st.input ≡ true
        → process st to_input ≡ release_held (accounted st st.input) st.input
    unfolding process process_data account
    process_release gap late held = rw (valid, plain, gap, late, held)

    pub process_deliver :
        is_dropout (delta st.seq_in st.input) (delta st.seq_out st.input) ≡ false
        → (is_late (delta st.seq_in st.input) (delta st.seq_out st.input)
            && holds_earlier st st.input)
          ≡ false
        → process st to_input ≡ hand_out (accounted st st.input) to_input st.input.cid
    unfolding process process_data account
    process_deliver gap wait = rw (valid, plain, gap, wait)

-- Once the buffer that the pointer names is used up, the held messages follow.
module _ (st : Store) (p : Ref) (done : (deref st p).valid ≡ false) where
  pub process_flush1 : st.buf1.valid ≡ true → process st p ≡ hand_out st to_buf1 st.buf1.cid
  unfolding process flush
  process_flush1 h = rw (done, h)

  pub process_flush2 :
      st.buf1.valid ≡ false → st.buf2.valid ≡ true → process st p ≡ hand_out st to_buf2 st.buf2.cid
  unfolding process flush
  process_flush2 h k = rw (done, h, k)

  pub process_empty : st.buf1.valid ≡ false → st.buf2.valid ≡ false → process st p ≡ (false, p, st)
  unfolding process flush
  process_empty h k = rw (done, h, k)

module _ (handle : MsgBuf → MsgBuf) (fuel : ℕ) (st : Store) (p q : Ref) (st' : Store) where
  pub drain_more :
      process st p ≡ (true, q, st')
      → let rest = drain handle fuel (assign st' q (handle (deref st' q))) q in
        drain handle (suc fuel) st p ≡ (deref st' q ∷ rest.0, rest.1, rest.2)
  unfolding drain
  drain_more e = rw (e, drain)

  pub drain_done : process st p ≡ (false, q, st') → drain handle (suc fuel) st p ≡ ([], st', true)
  unfolding drain
  drain_done e = rw (e, drain)
