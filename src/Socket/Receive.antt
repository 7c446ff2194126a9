-- ===== src/Socket/Receive.antt =====
-- What a receiver makes of a datagram.
use mathlib.Core.Bool.{false≢true}
use libov.Prelude.{
  ℕ, ◌+◌, ◌≤◌, ◌≡◌, ◌∙◌, refl, ap, true, false, Option, none, some, leb, length, take, slice,
  write_at, arith, le_value, ge→ltb, ==_iff, take_all, length-take, slice-write_at_front,
  slice-take, length-write_at, sub_size, add_size,
}
use libov.Protocol.{buf_size, header_len}
use libov.Endpoint.{Endpoint}
use libov.Message.{Bytes, msg_secret, msg_callerid, msg_port, msg_seq}
use libov.Message.Laws.{Packed}
use libov.Message.Buffer.{MsgBuf, unpack}
use libov.Socket.{Socket, recvfrom, check_msg, recv_sec_msg}

-- A buffer that holds a received message of the stream of device `cid` to `port`, with its data.
pub record Holds (cid port seq : ℕ) (msg : Bytes) (from : Endpoint) (b : MsgBuf) : Type 0 where
  pub is_valid : b.valid ≡ true
  pub has_cid : b.cid ≡ cid
  pub has_port : b.destport ≡ port
  pub has_seq : b.seq ≡ seq
  pub has_size : b.size ≡ length msg
  pub has_msg : slice b.msg_pos b.size b.rawbuffer ≡ msg
  pub has_sender : b.sender ≡ from

le→leb : (a b : ℕ) → a ≤ b → leb a b ≡ true
le→leb a b h = ground arith

-- Reads of the received bytes.
module _ (n : ℕ) (m raw : Bytes) (fits : n ≤ length m) (room : n ≤ length raw) where
  pub read_received : (p k : ℕ) → p + k ≤ n → slice p k (write_at 0 (take n m) raw) ≡ slice p k m
  read_received p k h =
      let same : length (take n m) ≡ n = omega (arith, length-take n m) in
      slice-write_at_front p k (take n m) raw (omega arith) (omega arith) ∙ slice-take p k n m h

-- The buffer of an accepted message.
abbrev pub unpacked : MsgBuf → ℕ → MsgBuf
unpacked b n = record b {
  cid = msg_callerid b.rawbuffer;
  destport = msg_port b.rawbuffer;
  seq = msg_seq b.rawbuffer;
  size = sub_size n header_len;
  msg_pos = header_len;
  valid = true;
}

pub unpack_lem : (b : MsgBuf) (n : ℕ) → header_len ≤ n → n ≤ buf_size → unpack b n ≡ unpacked b n
unfolding unpack
unpack_lem b n h k = rw (le→leb header_len n h, le→leb n buf_size k)

check_msg_accepts :
    (s : Socket) (b : MsgBuf) (n : ℕ)
    → header_len ≤ n
    → n ≤ buf_size
    → msg_secret b.rawbuffer ≡ s.secret
    → check_msg s b n ≡ (true, unpacked b n)
unfolding check_msg
check_msg_accepts s b n h k e =
    rw (ge→ltb n header_len h, (==_iff (msg_secret b.rawbuffer) s.secret).1 e, unpack_lem b n h k)

recvfrom_whole :
    (s : Socket) (bytes buf : Bytes) (from : Endpoint) (len n : ℕ)
    → length bytes ≡ n
    → n ≤ len
    → recvfrom (some (bytes, from)) s buf len
      ≡ (some n, write_at 0 bytes buf, from, record s { rx_bytes = add_size s.rx_bytes n })
unfolding recvfrom
recvfrom_whole s bytes buf from len n e h =
    let all : length bytes ≤ len = omega arith in rw (take_all len bytes all, e)

module _ (s : Socket) (b : MsgBuf) (from : Endpoint) (n cid port seq : ℕ) (msg m : Bytes)
    (p : Packed n s.secret cid port seq msg m) (fits : n ≤ length m)
    (room : buf_size ≤ length b.rawbuffer) (small : n ≤ buf_size) where
  -- The buffer with the received bytes.
  abbrev pub arrived : MsgBuf
  arrived = record b { valid = false; rawbuffer = write_at 0 (take n m) b.rawbuffer; sender = from }

  read_field :
      (q k : ℕ) → q + k ≤ n → le_value (slice q k arrived.rawbuffer) ≡ le_value (slice q k m)
  read_field q k h = ap le_value (read_received n m b.rawbuffer fits (omega arith) q k h)

  pub recv_accepts :
      recv_sec_msg (some (take n m, from)) s b
      ≡ (true, unpacked arrived n, record s { rx_bytes = add_size s.rx_bytes n })
  unfolding recv_sec_msg msg_secret
  recv_accepts = rw (
    recvfrom_whole s (take n m) b.rawbuffer from buf_size n (omega (arith, length-take n m)) small,
    check_msg_accepts (record s { rx_bytes = add_size s.rx_bytes n }) arrived n
        (omega (arith, p.len)) small (read_field 0 4 (omega (arith, p.len)) ∙ p.has_secret),
  )

  -- A datagram with the packed bytes of a message, sent under the secret of this socket, is accepted:
  -- the buffer then holds the message, with the device, port, number and data that were packed and
  -- the sender that the network names.
  pub recv_sec_msg-Packed :
      let (ok, b', s') = recv_sec_msg (some (take n m, from)) s b in
      (ok ≡ true) × Holds cid port seq msg from b' × (length b'.rawbuffer ≡ length b.rawbuffer)
  unfolding msg_callerid msg_port msg_seq
  recv_sec_msg-Packed =
      let size : sub_size n header_len ≡ length msg = omega (arith, p.len) in
      rw recv_accepts (
        refl,
        record {
          is_valid = refl;
          has_cid = read_field 4 1 (omega (arith, p.len)) ∙ p.has_callerid;
          has_port = read_field 5 2 (omega (arith, p.len)) ∙ p.has_port;
          has_seq = read_field 7 2 (omega (arith, p.len)) ∙ p.has_seq;
          has_size = size;
          has_msg = rw size (
              read_received n m b.rawbuffer fits (omega arith) header_len (length msg)
                (omega (arith, p.len))
              ∙ p.payload);
          has_sender = refl;
        },
        length-write_at 0 (take n m) b.rawbuffer,
      )

-- The counter is all of the socket that receiving changes.
pub secret-recv_sec_msg :
    (rx : Option (Bytes × Endpoint)) (s : Socket) (b : MsgBuf)
    → (recv_sec_msg rx s b).2.secret ≡ s.secret
unfolding recv_sec_msg recvfrom
secret-recv_sec_msg none s b = refl
secret-recv_sec_msg (some (bytes, from)) s b = refl

check_msg_only :
    (s : Socket) (b : MsgBuf) (n : ℕ)
    → b.valid ≡ false
    → (check_msg s b n).1.valid ≡ true
    → ((check_msg s b n).0 ≡ true) × (header_len ≤ n) × (msg_secret b.rawbuffer ≡ s.secret)
unfolding check_msg unpack
check_msg_only s b n blank ok = ground arith

check_msg_raw : (s : Socket) (b : MsgBuf) (n : ℕ) → (check_msg s b n).1.rawbuffer ≡ b.rawbuffer
unfolding check_msg unpack
check_msg_raw s b n = ground arith

-- Whatever the network delivers, the buffer is marked as valid afterwards only if at least a whole
-- header was received and the secret in it is that of this socket; the call returns true then.
pub recv_sec_msg_only :
    (rx : Option (Bytes × Endpoint)) (s : Socket) (b : MsgBuf)
    → (recv_sec_msg rx s b).1.valid ≡ true
    → ((recv_sec_msg rx s b).0 ≡ true)
      × (msg_secret (recv_sec_msg rx s b).1.rawbuffer ≡ s.secret)
      × ((got : Bytes × Endpoint) × (rx ≡ some got) × (header_len ≤ length got.0))
unfolding recv_sec_msg recvfrom
recv_sec_msg_only none s b ok = absurd (false≢true ok)
recv_sec_msg_only (some (bytes, from)) s b ok =
    let got = take buf_size bytes in
    let counted = record s { rx_bytes = add_size s.rx_bytes (length got) } in
    let filled = record b {
      valid = false;
      rawbuffer = write_at 0 got b.rawbuffer;
      sender = from;
    } in
    let fact = check_msg_only counted filled (length got) refl ok in
    (
      fact.0,
      rw (check_msg_raw counted filled (length got)) fact.2,
      ((bytes, from), refl, omega (arith, fact.1, length-take buf_size bytes)),
    )
