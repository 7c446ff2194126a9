-- ===== src/Sorter.antt =====
-- `message_sorter_t` of src/ovboxclient.h and src/ovboxclient.cc. The caller's message buffer and
-- the two buffers of the sorter make up a store, since `process` hands the caller a pointer to one of
-- the three. A `std::map` whose `operator[]` inserts a zero is a function into `Option`.
pub mod Signed
mod Steps
pub mod Rounds
mod Cases
pub mod Order
pub mod Reorder
pub mod Conserve
pub mod Stats
pub mod Sender
mod Tests
use libov.Prelude.{
  ℕ, ◌+◌, ◌-◌, ◌%◌, ◌^◌, Bool, true, false, not, ◌&&◌, ◌||◌, Option, none, some, List, [], ◌∷◌,
  ◌++◌, zero, suc, leb, ◌==◌, if◌then◌else◌, add_size,
}
use libov.Protocol.Port
use libov.Message.Buffer.{MsgBuf, copy}
use Signed.{slt, is_neg, extend, minus_one, diff16}

pub record Stat : Type 0 where
  pub received : ℕ
  pub lost : ℕ
  pub seqerr_in : ℕ
  pub seqerr_out : ℕ

abbrev pub zero_stat : Stat
zero_stat = record { received = 0; lost = 0; seqerr_in = 0; seqerr_out = 0 }

-- The last sequence number by device and port.
abbrev pub SeqMap : Type 0
SeqMap = ℕ → ℕ → Option ℕ

abbrev pub seq_at : SeqMap → ℕ → ℕ → ℕ
seq_at m cid port = elim (m cid port) [ none ↦ 0 | some s ↦ s ]

abbrev pub is_known : SeqMap → ℕ → ℕ → Bool
is_known m cid port = elim (m cid port) [ none ↦ false | some s ↦ true ]

abbrev pub put_seq : SeqMap → ℕ → ℕ → ℕ → SeqMap
put_seq m cid port s = λ c p. if c == cid && p == port then some s else m c p

pub record Store : Type 0 where
  pub seq_in : SeqMap
  pub seq_out : SeqMap
  pub buf1 : MsgBuf
  pub buf2 : MsgBuf
  pub stat : ℕ → Stat
  pub input : MsgBuf

-- A `msgbuf_t*`.
pub data Ref : Type 0 where
  to_input to_buf1 to_buf2 : Ref

abbrev pub deref : Store → Ref → MsgBuf
deref st to_input = st.input
deref st to_buf1 = st.buf1
deref st to_buf2 = st.buf2

abbrev pub assign : Store → Ref → MsgBuf → Store
assign st to_input b = record st { input = b }
assign st to_buf1 b = record st { buf1 = b }
assign st to_buf2 b = record st { buf2 = b }

abbrev pub invalidate : Store → Ref → Store
invalidate st p = assign st p (record (deref st p) { valid = false })

-- `stat[cid]` updated by a function.
abbrev pub update_stat : Store → ℕ → (Stat → Stat) → Store
update_stat st cid f = record st { stat = λ c. if c == cid then f (st.stat c) else st.stat c }

-- `deltaseq` is `delta` followed by `put_seq`; `deltaseq_const` is `delta`, which leaves an entry.
abbrev pub delta : SeqMap → MsgBuf → ℕ
delta m b = diff16 b.seq (seq_at m b.cid b.destport)

abbrev pub record_in : Store → MsgBuf → Store
record_in st b = record st { seq_in = put_seq st.seq_in b.cid b.destport b.seq }

abbrev pub record_out : Store → MsgBuf → Store
record_out st b = record st { seq_out = put_seq st.seq_out b.cid b.destport b.seq }

abbrev pub touch_out : Store → MsgBuf → Store
touch_out st b = record st {
  seq_out = put_seq st.seq_out b.cid b.destport (seq_at st.seq_out b.cid b.destport);
}

-- `++stat[cid].received`, `stat[cid].lost += dseq_in - 1` and the two error counters.
abbrev pub count_received : Stat → Stat
count_received s = record s { received = add_size s.received 1 }

abbrev pub count_lost : Bool → ℕ → Stat → Stat
count_lost notfirst din s =
    if not (din == 0) && notfirst
    then record s { lost = add_size s.lost (extend din + (2 ^ 64 - 1)) }
    else s

abbrev pub count_seqerr_in : ℕ → Stat → Stat
count_seqerr_in din s = record s { seqerr_in = add_size s.seqerr_in (if is_neg din then 1 else 0) }

abbrev pub count_seqerr_out : ℕ → Stat → Stat
count_seqerr_out dout s = record s {
  seqerr_out = add_size s.seqerr_out (if is_neg dout then 1 else 0);
}

-- The bookkeeping of an incoming data message, up to the test for a dropout.
unfoldable pub account : Store → MsgBuf → Store
account st m =
    let notfirst = is_known st.seq_in m.cid m.destport in
    let din = delta st.seq_in m in
    touch_out (record_in (update_stat st m.cid (λ s. count_lost notfirst din (count_received s))) m)
      m

-- A gap in front of this message, at the input and at the output.
abbrev pub is_dropout : ℕ → ℕ → Bool
is_dropout din dio = slt 1 din && slt 1 dio

abbrev pub is_late : ℕ → ℕ → Bool
is_late din dio = slt din minus_one || (slt 1 dio && slt 0 din)

-- A held message of the same stream that was sent earlier.
abbrev pub holds_earlier : Store → MsgBuf → Bool
holds_earlier st m =
    st.buf1.valid
    && (st.buf1.cid == m.cid && (st.buf1.destport == m.destport && slt st.buf1.seq m.seq))

-- The result of a step: the returned value, `*ppmsg`, and the store.
abbrev pub Outcome : Type 0
Outcome = Bool × Ref × Store

unfoldable pub hold : Store → Ref → MsgBuf → Outcome
hold st p m = (false, p, invalidate (record st { buf1 = copy st.buf1 m }) p)

-- Hand out the message in the buffer `q`, on the account of `cid`.
unfoldable pub hand_out : Store → Ref → ℕ → Outcome
hand_out st q cid =
    let b = deref st q in
    let dout = delta st.seq_out b in
    (true, q, update_stat (invalidate (record_out st b) q) cid (count_seqerr_out dout))

-- The held message goes first, and the new one waits in the second buffer.
unfoldable pub release_held : Store → MsgBuf → Outcome
release_held st m = hand_out (record st { buf2 = copy st.buf2 m }) to_buf1 m.cid

unfoldable pub process_data : Store → Ref → Outcome
process_data st p =
    let m = deref st p in
    let din = delta st.seq_in m in
    let dio = delta st.seq_out m in
    let st1 = account st m in
    let st2 = update_stat st1 m.cid (count_seqerr_in din) in
    if is_dropout din dio
    then hold st1 p m
    else if is_late din dio && holds_earlier st2 m
    then release_held st2 m
    else hand_out st2 p m.cid

unfoldable pub flush : Store → Ref → Outcome
flush st p =
    if st.buf1.valid
    then hand_out st to_buf1 st.buf1.cid
    else if st.buf2.valid
    then hand_out st to_buf2 st.buf2.cid
    else (false, p, st)

unfoldable pub process : Store → Ref → Outcome
process st p =
    if (deref st p).valid
    then (if leb (deref st p).destport Port.maxspecialport
        then (true, p, invalidate st p)
        else process_data st p)
    else flush st p

-- The inner loop of `sendsrv`: hand out until there is nothing left. `handle` is what the receiver of
-- a message does to its buffer. The result has the messages in order, the store, and whether the loop
-- came to its end within the fuel.
unfoldable pub drain : (MsgBuf → MsgBuf) → ℕ → Store → Ref → List MsgBuf × Store × Bool
drain handle zero st p = ([], st, false)
drain handle (suc fuel) st p =
    let (more, q, st') = process st p in
    let rest = drain handle fuel (assign st' q (handle (deref st' q))) q in
    if more then (deref st' q ∷ rest.0, rest.1, rest.2) else ([], st', true)

-- One round of `sendsrv` for a received message. Four calls of `process` are enough.
unfoldable pub receive : (MsgBuf → MsgBuf) → Store → MsgBuf → List MsgBuf × Store × Bool
receive handle st m = drain handle 4 (record st { input = m }) to_input

-- The loop over a sequence of received messages, with all that is handed out.
unfoldable pub receive_all : (MsgBuf → MsgBuf) → Store → List MsgBuf → List MsgBuf × Store
receive_all handle st [] = ([], st)
receive_all handle st (m ∷ ms) =
    let (out, st', _) = receive handle st m in
    let (outs, end) = receive_all handle st' ms in (out ++ outs, end)
