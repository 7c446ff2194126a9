-- ===== src/Sorter/Conserve.antt =====
-- The sorter keeps every message, but for one case.
use mathlib.Core.List.{Perm}
use mathlib.Core.List.Perm
use mathlib.Core.Bool.{false≢true}
use libov.Prelude.{
  ℕ, ◌≡◌, refl, Bool, true, false, not, ◌&&◌, List, [], ◌∷◌, ◌++◌, map, leb, if◌then◌else◌,
  Bool-cases, inl, inr,
}
use libov.Protocol.Port
use libov.Message.{Bytes}
use libov.Message.Buffer.{MsgBuf, copy}
use libov.Sorter.{Store, delta, account, is_dropout, hand_out, receive}
use libov.Sorter.Cases.{receive_cases}

-- What a message says: the fields that `copy` copies, but for the pointer and the mark.
abbrev pub Content : Type 0
Content = ℕ × ℕ × ℕ × ℕ × Bytes

abbrev pub content : MsgBuf → Content
content b = (b.cid, b.destport, b.seq, b.size, b.rawbuffer)

-- The message that waits in the first buffer between two rounds.
abbrev pub held : Store → List Content
held st = if st.buf1.valid then content st.buf1 ∷ [] else []

-- A second gap while a message is held.
abbrev pub overwrites : Store → MsgBuf → Bool
overwrites st m =
    st.buf1.valid
    && (not (leb m.destport Port.maxspecialport)
        && is_dropout (delta st.seq_in m) (delta st.seq_out m))

-- What a round yields: it came to its end, the second buffer is empty, and the messages that came out
-- and the one that is held are those that were there.
pub record Conserves (before : List Content) (r : List MsgBuf × Store × Bool) : Type 0 where
  pub ended : r.2 ≡ true
  pub spare : r.1.buf2.valid ≡ false
  pub kept : Perm (map content r.0 ++ held r.1) before

module _ (handle : MsgBuf → MsgBuf) (quiet : (b : MsgBuf) → (handle b).valid ≡ false) (st : Store)
    (m : MsgBuf) (valid : m.valid ≡ true) where
  not_full :
      leb m.destport Port.maxspecialport ≡ false
      → is_dropout (delta st.seq_in m) (delta st.seq_out m) ≡ true
      → overwrites st m ≡ false
      → st.buf1.valid ≡ false
  not_full plain gap calm = elim (Bool-cases st.buf1.valid) [
    | inl full ↦ let h = rw (full, plain, gap) at calm in cc
    | inr empty ↦ empty
  ]

  -- A round of the receiver loop ends within four calls of `process`. Unless the new message leaves a
  -- gap while another one is held, the messages that are handed out and the message that is held
  -- afterwards are the new message and the one held before: none is lost, made up or changed.
  pub receive-Conserves :
      st.buf2.valid ≡ false
      → overwrites st m ≡ false
      → Conserves (content m ∷ held st) (receive handle st m)
  unfolding hand_out account copy
  receive-Conserves spare calm =
      receive_cases handle quiet st m valid (Conserves (content m ∷ held st)) spare
        (λ special empty. record { ended = refl; spare = spare; kept = rw empty (Perm.refl _) })
        (λ special full. record {
          ended = refl;
          spare = spare;
          kept = rw (full, quiet) (Perm.refl _);
        })
        (λ plain gap. record {
          ended = refl;
          spare = spare;
          kept = rw (valid, not_full plain gap calm) (Perm.refl _);
        })
        (λ plain tight empty. record { ended = refl; spare = spare; kept = rw empty (Perm.refl _) })
        (λ plain tight full. record {
          ended = refl;
          spare = spare;
          kept = rw (full, quiet) (Perm.refl _);
        })
        (λ plain tight full. record {
          ended = refl;
          spare = quiet _;
          kept = rw (full, quiet) (Perm.swap _ _ _);
        })

  -- In that one case, a second gap while a message is held, nothing is handed out, and the message
  -- that was held is forgotten: only the new one is held afterwards.
  pub receive-overwrites :
      st.buf2.valid ≡ false
      → overwrites st m ≡ true
      → ((receive handle st m).0 ≡ []) × (held (receive handle st m).1 ≡ content m ∷ [])
  unfolding hand_out account copy
  receive-overwrites spare clash =
      receive_cases handle quiet st m valid (λ r. (r.0 ≡ []) × (held r.1 ≡ content m ∷ [])) spare
        (λ special empty. absurd (false≢true (rw (empty) at clash)))
        (λ special full. absurd (false≢true (rw (full, special) at clash)))
        (λ plain gap. (refl, rw valid))
        (λ plain tight empty. absurd (false≢true (rw (empty) at clash)))
        (λ plain tight full. absurd (false≢true (rw (full, plain, tight) at clash)))
        (λ plain tight full. absurd (false≢true (rw (full, plain, tight) at clash)))
