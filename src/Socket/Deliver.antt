-- ===== src/Socket/Deliver.antt =====
-- What a socket makes of a packed message that is sent to it: the whole buffer.
use libov.Prelude.{
  ℕ, ◌+◌, ◌≤◌, ◌≡◌, ◌∙◌, refl, ap, some, true, length, take, slice, write_at, le_value, arith,
  length-write_at,
}
use libov.Protocol.{buf_size, header_len}
use libov.Endpoint.{Endpoint}
use libov.Message.{Bytes, msg_secret, msg_callerid, msg_port, msg_seq}
use libov.Message.Laws.{Packed}
use libov.Message.Buffer.{MsgBuf}
use libov.Socket.{Socket, recv_sec_msg}
use libov.Socket.Receive.{read_received, recv_accepts}

-- The buffer has the fields of the message, and its memory is the packed message.
pub record Delivered (n secret cid port seq : ℕ) (msg : Bytes) (from : Endpoint) (b : MsgBuf)
    : Type 0 where
  pub has_cid : b.cid ≡ cid
  pub has_port : b.destport ≡ port
  pub has_size : b.size ≡ length msg
  pub has_pos : b.msg_pos ≡ header_len
  pub has_sender : b.sender ≡ from
  pub packed : Packed n secret cid port seq msg b.rawbuffer
  pub room : buf_size ≤ length b.rawbuffer

module _ (s : Socket) (b : MsgBuf) (from : Endpoint) (n cid port seq : ℕ) (msg m : Bytes)
    (p : Packed n s.secret cid port seq msg m) (fits : n ≤ length m)
    (room : buf_size ≤ length b.rawbuffer) (small : n ≤ buf_size) where
  received : Bytes
  received = write_at 0 (take n m) b.rawbuffer

  same : (q k : ℕ) → q + k ≤ n → slice q k received ≡ slice q k m
  unfolding received
  same q k h = read_received n m b.rawbuffer fits (omega arith) q k h

  received-Packed : Packed n s.secret cid port seq msg received
  unfolding msg_secret msg_callerid msg_port msg_seq
  received-Packed = record {
    len = p.len;
    has_secret = ap le_value (same 0 4 (omega (arith, p.len))) ∙ p.has_secret;
    has_callerid = ap le_value (same 4 1 (omega (arith, p.len))) ∙ p.has_callerid;
    has_port = ap le_value (same 5 2 (omega (arith, p.len))) ∙ p.has_port;
    has_seq = ap le_value (same 7 2 (omega (arith, p.len))) ∙ p.has_seq;
    payload = same header_len (length msg) (omega (arith, p.len)) ∙ p.payload;
  }

  -- The datagram of a packed message under the secret of the socket is accepted.
  pub recv_sec_msg-Delivered :
      let (ok, b', s') = recv_sec_msg (some (take n m, from)) s b in
      (ok ≡ true) × Delivered n s.secret cid port seq msg from b'
  unfolding received
  recv_sec_msg-Delivered = rw (recv_accepts s b from n cid port seq msg m p fits room small) (
    refl,
    record {
      has_cid = received-Packed.has_callerid;
      has_port = received-Packed.has_port;
      has_size = omega (arith, p.len);
      has_pos = refl;
      has_sender = refl;
      packed = received-Packed;
      room = omega (arith, length-write_at 0 (take n m) b.rawbuffer, room);
    },
  )
