-- ===== src/Sorter/Sender.antt =====
-- The senders of held messages: `copy` leaves them behind.
use libov.Prelude.{
  ℕ, zero, suc, ◌≡◌, ◌∙◌, refl, Bool, true, false, List, [], ◌∷◌, ap, leb, ◌&&◌, if◌then◌else◌,
  Bool-cases, inl, inr, ◌⊎◌,
}
use mathlib.Core.Path.{subst}
use libov.CallerList.Laws.{All}
use libov.Protocol.Port
use libov.Endpoint.{Endpoint}
use libov.Message.Buffer.{MsgBuf, copy}
use libov.Sorter.{
  Store, Ref, to_input, to_buf1, to_buf2, deref, assign, account, hold, hand_out, release_held,
  process_data, flush, process, drain, receive, receive_all, Outcome, invalidate, update_stat,
  delta, is_dropout, is_late, holds_earlier, count_seqerr_in,
}

-- The senders that the two buffers name, and that of the message received last.
abbrev pub held_senders : Store → Endpoint × Endpoint
held_senders st = (st.buf1.sender, st.buf2.sender)

abbrev senders : Store → Endpoint × Endpoint × Endpoint
senders st = (st.input.sender, st.buf1.sender, st.buf2.sender)

hand_out-senders : (st : Store) (q : Ref) (c : ℕ) → senders (hand_out st q c).2 ≡ senders st
unfolding hand_out
hand_out-senders st to_input c = refl
hand_out-senders st to_buf1 c = refl
hand_out-senders st to_buf2 c = refl

hold-senders : (st : Store) (q : Ref) (m : MsgBuf) → senders (hold st q m).2 ≡ senders st
unfolding hold copy
hold-senders st to_input m = refl
hold-senders st to_buf1 m = refl
hold-senders st to_buf2 m = refl

-- The outcome leaves them alone.
abbrev Keeps : Store → Outcome → Type 0
Keeps st r = senders r.2 ≡ senders st

if_Keeps :
    (st : Store) (b : Bool) (x y : Outcome)
    → Keeps st x
    → Keeps st y
    → Keeps st (if b then x else y)
if_Keeps st true x y p q = p
if_Keeps st false x y p q = q

process_data-Keeps : (st : Store) (p : Ref) → Keeps st (process_data st p)
unfolding process_data account release_held copy
process_data-Keeps st p =
    let m = deref st p in
    let counted = update_stat (account st m) m.cid (count_seqerr_in (delta st.seq_in m)) in
    if_Keeps st (is_dropout (delta st.seq_in m) (delta st.seq_out m)) (hold (account st m) p m) _
      (hold-senders (account st m) p m)
      (if_Keeps st (is_late (delta st.seq_in m) (delta st.seq_out m) && holds_earlier counted m)
        (release_held counted m) (hand_out counted p m.cid)
        (hand_out-senders (record counted { buf2 = copy st.buf2 m }) to_buf1 m.cid)
        (hand_out-senders counted p m.cid))

assign_valid-Keeps : (st : Store) (p : Ref) → senders (invalidate st p) ≡ senders st
assign_valid-Keeps st to_input = refl
assign_valid-Keeps st to_buf1 = refl
assign_valid-Keeps st to_buf2 = refl

process-Keeps : (st : Store) (p : Ref) → Keeps st (process st p)
unfolding process flush
process-Keeps st p =
    if_Keeps st (deref st p).valid
      (if leb (deref st p).destport Port.maxspecialport
        then (true, p, invalidate st p)
        else process_data st p)
      (flush st p)
      (if_Keeps st (leb (deref st p).destport Port.maxspecialport) (true, p, invalidate st p)
        (process_data st p) (assign_valid-Keeps st p) (process_data-Keeps st p))
      (if_Keeps st st.buf1.valid (hand_out st to_buf1 st.buf1.cid) _
        (hand_out-senders st to_buf1 st.buf1.cid)
        (if_Keeps st st.buf2.valid (hand_out st to_buf2 st.buf2.cid) (false, p, st)
          (hand_out-senders st to_buf2 st.buf2.cid) refl))

-- The sender is one of three.
abbrev pub IsNamed : Endpoint → Endpoint × Endpoint → MsgBuf → Type 0
IsNamed received (first, second) b =
    (b.sender ≡ received) ⊎ ((b.sender ≡ first) ⊎ (b.sender ≡ second))

abbrev AreNamed : Endpoint × Endpoint × Endpoint → List MsgBuf → Type 0
AreNamed (received, first, second) bs = All (IsNamed received (first, second)) bs

deref-IsNamed : (st : Store) (q : Ref) → IsNamed st.input.sender (held_senders st) (deref st q)
deref-IsNamed st to_input = inl refl
deref-IsNamed st to_buf1 = inr (inl refl)
deref-IsNamed st to_buf2 = inr (inr refl)

module _ (handle : MsgBuf → MsgBuf) (honest : (b : MsgBuf) → (handle b).sender ≡ b.sender) where
  handled : (st : Store) (q : Ref) → senders (assign st q (handle (deref st q))) ≡ senders st
  handled st to_input = ap (λ e. (e, st.buf1.sender, st.buf2.sender)) (honest st.input)
  handled st to_buf1 = ap (λ e. (st.input.sender, e, st.buf2.sender)) (honest st.buf1)
  handled st to_buf2 = ap (λ e. (st.input.sender, st.buf1.sender, e)) (honest st.buf2)

  drain-senders :
      (fuel : ℕ) (st : Store) (p : Ref) → senders (drain handle fuel st p).1 ≡ senders st
  unfolding drain
  drain-senders zero st p = refl
  drain-senders (suc fuel) st p = elim (Bool-cases (process st p).0) [
    | inl more ↦ rw more (
        drain-senders fuel
          (assign (process st p).2 (process st p).1
            (handle (deref (process st p).2 (process st p).1)))
          (process st p).1
        ∙ handled (process st p).2 (process st p).1
        ∙ process-Keeps st p)
    | inr done ↦ rw done (process-Keeps st p)
  ]

  drain-AreNamed :
      (fuel : ℕ) (st : Store) (p : Ref) → AreNamed (senders st) (drain handle fuel st p).0
  unfolding drain
  drain-AreNamed zero st p = tt
  drain-AreNamed (suc fuel) st p = elim (Bool-cases (process st p).0) [
    | inl more ↦
        let st' = (process st p).2 in
        let q = (process st p).1 in
        let next = assign st' q (handle (deref st' q)) in
        rw more (
          subst (λ t. IsNamed t.0 (t.1, t.2) (deref st' q)) (process-Keeps st p)
              (deref-IsNamed st' q),
          subst (λ t. AreNamed t (drain handle fuel next q).0) (handled st' q ∙ process-Keeps st p)
              (drain-AreNamed fuel next q),
        )
    | inr done ↦ rw done tt
  ]

  receive_all-held_senders :
      (st : Store) (ms : List MsgBuf) → held_senders (receive_all handle st ms).1 ≡ held_senders st
  unfolding receive_all receive
  receive_all-held_senders st [] = refl
  receive_all-held_senders st (m ∷ ms) =
      receive_all-held_senders (receive handle st m).1 ms
      ∙ ap (λ t. (t.1, t.2)) (drain-senders 4 (record st { input = m }) to_input)

  -- After any history of received messages, the two buffers of the sorter name the senders that they
  -- named in the beginning, and each message that the next round hands out has one of these, or the
  -- sender of the message received in that round, whichever messages were held before. The handler
  -- leaves the sender alone.
  pub receive-AreNamed :
      (st : Store) (ms : List MsgBuf) (m : MsgBuf)
      → let st' = (receive_all handle st ms).1 in
        (held_senders st' ≡ held_senders st)
        × All (IsNamed m.sender (held_senders st)) (receive handle st' m).0
  unfolding receive
  receive-AreNamed st ms m =
      let st' = (receive_all handle st ms).1 in
      let same = receive_all-held_senders st ms in
      (
        same,
        subst (λ h. All (IsNamed m.sender h) (drain handle 4 (record st' { input = m }) to_input).0)
            same (drain-AreNamed 4 (record st' { input = m }) to_input),
      )
