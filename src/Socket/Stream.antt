-- ===== src/Socket/Stream.antt =====
-- A stream of data from one device to another: packed and sent by one socket, delivered by the network
-- in order, received by another, and sorted.
use mathlib.Core.Path.{subst, ap₂}
use libov.Prelude.{
  ℕ, ◌+◌, ◌^◌, ◌≤◌, ◌<◌, ◌≡◌, ◌∙◌, sym, refl, ap, false, some, List, [], ◌∷◌, map, length, take,
  slice, arith,
}
use libov.Protocol.{buf_size, header_len}
use libov.Protocol.Port
use libov.Endpoint.{Endpoint}
use libov.Message.{Bytes}
use libov.Message.Laws.{Packed}
use libov.Message.Buffer.{MsgBuf}
use libov.Socket.{Socket, packmsg, recv_sec_msg}
use libov.Socket.Pack.{IsSocket, next_seq, packmsg-data, next_seq-packmsg, packmsg-keeps}
use libov.Socket.Receive.{recv_sec_msg-Packed, secret-recv_sec_msg}
use libov.Sorter.{Store, receive_all}
use libov.Sorter.Order.{ahead, Ready, Follows, receive_all-in_order}
use libov.Sorter.Rounds.{used}

-- The data of a message.
abbrev pub data_of : MsgBuf → Bytes
data_of b = slice b.msg_pos b.size b.rawbuffer

-- Every message fits into a packet.
abbrev pub Fit : List Bytes → Type 0
Fit [] = Unit {0}
Fit (msg ∷ msgs) = (header_len + length msg ≤ buf_size) × Fit msgs

module _ (stack : Bytes) (from : Endpoint) (port : ℕ) where
  -- Each message is packed by the first socket and received by the second one into its buffer.
  abbrev pub transmit : Socket → Socket → MsgBuf → List Bytes → List MsgBuf
  transmit s q b [] = []
  transmit s q b (msg ∷ msgs) =
      let ((n, m), s') = packmsg s stack buf_size port msg (length msg) in
      let (_, b', q') = recv_sec_msg (some (take n m, from)) q b in b' ∷ transmit s' q' b' msgs

  module _ (low : port < 2 ^ 16) (high : Port.maxspecialport < port)
      (big : buf_size ≤ length stack) where
    transmit-Follows :
        (s q : Socket) (b : MsgBuf) (msgs : List Bytes)
        → IsSocket s
        → q.secret ≡ s.secret
        → buf_size ≤ length b.rawbuffer
        → Fit msgs
        → Follows s.callerid port (s.seqmap port) (transmit s q b msgs)
          × (map data_of (transmit s q b msgs) ≡ msgs)
    transmit-Follows s q b [] fits same room fit = (tt, refl)
    transmit-Follows s q b (msg ∷ msgs) fits same room fit =
        let n = (packmsg s stack buf_size port msg (length msg)).0.0 in
        let m = (packmsg s stack buf_size port msg (length msg)).0.1 in
        let s' = (packmsg s stack buf_size port msg (length msg)).1 in
        let packed = packmsg-data s fits stack big port low high msg fit.0 in
        let kept = packmsg-keeps s fits stack big port low high msg fit.0 in
        let p : Packed n q.secret s.callerid port (next_seq s port) msg m =
          subst (λ k. Packed n k s.callerid port (next_seq s port) msg m) (sym same) packed.0 in
        let got =
          recv_sec_msg-Packed q b from n s.callerid port (next_seq s port) msg m p
            (omega (arith, p.len, packed.1)) room (omega (arith, p.len, fit.0)) in
        let q' = (recv_sec_msg (some (take n m, from)) q b).2 in
        let b' = (recv_sec_msg (some (take n m, from)) q b).1 in
        let rest =
          transmit-Follows s' q' b' msgs
            (record {
              secret_fits = rw kept.0 fits.secret_fits;
              callerid_fits = rw kept.1 fits.callerid_fits;
            })
            (secret-recv_sec_msg (some (take n m, from)) q b ∙ same ∙ sym kept.0)
            (omega (arith, got.2, room)) fit.1 in
        let next : s'.seqmap port ≡ ahead (s.seqmap port) 1 =
          next_seq-packmsg s fits stack big port low high msg fit.0 in
        (
          (
            record {
              is_valid = got.1.is_valid;
              from_cid = got.1.has_cid;
              to_port = got.1.has_port;
              with_seq = got.1.has_seq;
            },
            subst (λ c. Follows c port (ahead (s.seqmap port) 1) (transmit s' q' b' msgs)) kept.1
                (subst (λ k. Follows s'.callerid port k (transmit s' q' b' msgs)) next rest.0),
          ),
          ap₂ ◌∷◌ got.1.has_msg rest.1,
        )

    data_of-used : (bs : List MsgBuf) → map data_of (map used bs) ≡ map data_of bs
    data_of-used [] = refl
    data_of-used (b ∷ bs) = ap (◌∷◌ (data_of b)) (data_of-used bs)

    -- From end to end: if two sockets share the secret, every message fits into a packet, and the
    -- receiving sorter holds nothing and stands where the sender's counter stands, then a list of
    -- messages of any length that is packed, delivered in order, received and sorted comes out as the
    -- same list, with nothing held back.
    pub transmit_in_order :
        (s q : Socket) (b : MsgBuf) (msgs : List Bytes) (handle : MsgBuf → MsgBuf) (st : Store)
        → ((c : MsgBuf) → (handle c).valid ≡ false)
        → IsSocket s
        → q.secret ≡ s.secret
        → buf_size ≤ length b.rawbuffer
        → Fit msgs
        → s.seqmap port < 0x10000
        → Ready s.callerid port (s.seqmap port) st
        → let (out, end) = receive_all handle st (transmit s q b msgs) in
          (map data_of out ≡ msgs) × (end.buf1.valid ≡ false)
    transmit_in_order s q b msgs handle st quiet fits same room fit small ready =
        let sent = transmit-Follows s q b msgs fits same room fit in
        let sorted =
          receive_all-in_order handle quiet s.callerid port high st (s.seqmap port)
            (transmit s q b msgs) small ready sent.0 in
        (ap (map data_of) sorted.0 ∙ data_of-used (transmit s q b msgs) ∙ sent.1, sorted.1)
