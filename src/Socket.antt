-- ===== src/Socket.antt =====
-- `ovbox_udpsocket_t` and the sending and receiving of `udpsocket_t` (src/udpsocket.h,
-- src/udpsocket.cc). The system calls are arguments: what `sendto` returned (`none` for -1), what
-- `recvfrom` delivered, and the clock. A call that sends returns its datagrams.
pub mod Pack
pub mod Receive
pub mod Deliver
pub mod Ping
pub mod Stream
mod Tests
use libov.Prelude.{
  ℕ, ◌+◌, ◌-◌, ◌*◌, ◌/◌, ◌%◌, ◌^◌, ◌≡◌, Bool, true, false, Option, none, some, List, [], ◌∷◌, ◌++◌,
  ltb, leb, ◌==◌, if◌then◌else◌, length, take, drop, slice, write_at, replicate, le_bytes, add_size,
}
use libov.Protocol.{buf_size, header_len}
use libov.Protocol.Port
use libov.Endpoint.{Endpoint, zero_endpoint, af_inet, endpoint_size, store_endpoint}
use libov.Real.{RealOps}
use libov.Message
use libov.Message.{Bytes, msg_secret, msg_callerid, msg_port, msg_seq, addmsg}
use libov.Message.Buffer.{MsgBuf, unpack}

pub record Socket : Type 0 where
  pub secret : ℕ
  pub callerid : ℕ
  pub seqmap : ℕ → ℕ
  pub serv_addr : Endpoint
  pub recipient_public : Bytes
  pub recipient_secret : Bytes
  pub tx_bytes : ℕ
  pub rx_bytes : ℕ

pub record Datagram : Type 0 where
  pub payload : Bytes
  pub dest : Endpoint

-- `htons` on a host with the least significant byte first; `ntohs` is the same function.
abbrev pub htons : ℕ → ℕ
htons p = p % 256 * 256 + p / 256

-- `tx_bytes += tx` if `tx > 0`.
count_tx : Option ℕ → Socket → Socket
count_tx none s = s
count_tx (some tx) s = record s { tx_bytes = add_size s.tx_bytes tx }

-- The result is what is returned, the datagrams, and the socket.
abbrev pub Sent : Type 0
Sent = Option ℕ × List Datagram × Socket

unfoldable pub send_to : Option ℕ → Socket → Bytes → ℕ → Endpoint → Sent
unfolding count_tx
send_to tx s buf len ep = (tx, record { payload = take len buf; dest = ep } ∷ [], count_tx tx s)

-- Sending to a port of the server. Port 0 sends nothing.
unfoldable pub send_port : Option ℕ → Socket → Bytes → ℕ → ℕ → Sent
send_port tx s buf len portno =
    if portno == 0
    then (some len, [], s)
    else (let addr = s.serv_addr in
        let dest = record addr { sin_port = htons portno } in
        send_to tx (record s { serv_addr = dest }) buf len dest)

-- `seqmap[destport]`, incremented for a data port. A `sequence_t` wraps.
unfoldable pub packmsg : Socket → Bytes → ℕ → ℕ → Bytes → ℕ → (ℕ × Bytes) × Socket
packmsg s destbuf maxlen destport msg msglen =
    if leb Port.maxspecialport destport
    then (let seq = (s.seqmap destport + 1) % 0x10000 in
        (
          Message.packmsg destbuf maxlen s.secret s.callerid destport seq msg msglen,
          record s { seqmap = λ p. if p == destport then seq else s.seqmap p },
        ))
    else (Message.packmsg destbuf maxlen s.secret s.callerid destport 0 msg msglen, s)

-- The first list is the buffer as it lies on the stack.
unfoldable pub pack_and_send :
    Option ℕ → Bytes → Socket → ℕ → Bytes → ℕ → ℕ → Bool × List Datagram × Socket
pack_and_send tx stack s destport msg msglen remoteport =
    let ((len, m), s') = packmsg s stack buf_size destport msg msglen in
    if len == 0
    then (false, [], s')
    else (let (ret, out, s2) = send_port tx s' m len remoteport in
        (elim ret [ none ↦ false | some n ↦ true ], out, s2))

-- What `recvfrom` delivers into a buffer of `len` bytes: the rest of a longer datagram is dropped.
abbrev pub Received : Type 0
Received = Option (Bytes × Endpoint)

abbrev no_sender : Endpoint
no_sender = record { sin_family = af_inet; sin_port = 0; s_addr = 0; sin_zero = 0 }

-- `recvfrom` with the counter: the received length or `none`, the buffer, the sender, the socket.
unfoldable pub recvfrom : Received → Socket → Bytes → ℕ → Option ℕ × Bytes × Endpoint × Socket
recvfrom none s buf len = (none, buf, no_sender, s)
recvfrom (some (bytes, from)) s buf len =
    let got = take len bytes in
    (
      some (length got),
      write_at 0 got buf,
      from,
      record s { rx_bytes = add_size s.rx_bytes (length got) },
    )

-- The checks on a message of `ilen` bytes: the header is there, and the secret fits.
unfoldable pub check_msg : Socket → MsgBuf → ℕ → Bool × MsgBuf
check_msg s b ilen =
    if ltb ilen header_len
    then (false, b)
    else if msg_secret b.rawbuffer == s.secret
    then (let b' = unpack b ilen in (b'.valid, b'))
    else (false, b)

finish_recv : Option ℕ → Socket → MsgBuf → Bool × MsgBuf × Socket
finish_recv none s b = (false, b, s)
finish_recv (some ilen) s b = let (ok, b') = check_msg s b ilen in (ok, b', s)

unfoldable pub recv_sec_msg : Received → Socket → MsgBuf → Bool × MsgBuf × Socket
unfolding finish_recv
recv_sec_msg rx s b =
    let (ilens, raw, from, s') = recvfrom rx s b.rawbuffer buf_size in
    finish_recv ilens s' (record b { valid = false; rawbuffer = raw; sender = from })

-- The other overload: length, device, port and number of the message, which lies behind the header.
unfoldable pub recv_raw_msg :
    Received → Socket → Bytes → ℕ → Option (ℕ × ℕ × ℕ × ℕ) × ℕ × Bytes × Endpoint × Socket
recv_raw_msg rx s inputbuf ilen =
    let (ilens, buf, from, s') = recvfrom rx s inputbuf ilen in
    elim ilens [
      | none ↦ (none, 0, buf, from, s')
      | some n ↦ (
        (if ltb n header_len
            then none
            else if msg_secret buf == s.secret
            then some (n - header_len, msg_callerid buf, msg_port buf, msg_seq buf)
            else none),
        n,
        buf,
        from,
        s',
      )
    ]

-- The public key goes to a port of the server, or to a peer.
unfoldable pub send_pubkey : Option ℕ → ℕ → Bytes → Socket → ℕ → Sent
send_pubkey tx keybytes stack s port =
    let ((n, m), s') =
      packmsg s stack (header_len + keybytes) Port.pubkey s.recipient_public keybytes in
    send_port tx s' m n port

-- The version, the local address and the key.
unfoldable pub send_registration :
    (Option ℕ × Option ℕ × Option ℕ)
    → ℕ
    → (Bytes × Bytes × Bytes)
    → Bytes
    → Socket
    → ℕ
    → ℕ
    → Endpoint
    → List Datagram × Socket
send_registration (tx1, tx2, tx3) keybytes (stack1, stack2, stack3) rver s mode port localep =
    let len = length rver + 1 in
    let (n, m) =
      Message.packmsg stack1 (header_len + len) s.secret s.callerid Port.register mode
        (rver ++ (0 ∷ [])) len in
    let (_, out1, s1) = send_port tx1 s m n port in
    let ((n2, m2), s2) =
      packmsg s1 stack2 (header_len + endpoint_size) Port.setlocalip (store_endpoint localep)
        endpoint_size in
    let (_, out2, s3) = send_port tx2 s2 m2 n2 port in
    let (_, out3, s4) = send_pubkey tx3 keybytes stack3 s3 port in (out1 ++ (out2 ++ out3), s4)

-- A `double` in a message, eight bytes.
pub record Doubles (R : Type 0) : Type 0 where
  pub store : R → Bytes
  pub load : Bytes → R
  pub length-store : (t : R) → length (store t) ≡ 8
  pub load-store : (t : R) → load (store t) ≡ t

-- HEADERLEN, a time point, a device, an endpoint, and 100.
abbrev pub pingbufsize : ℕ
pingbufsize = header_len + 8 + 1 + endpoint_size + 100

module _ {R : Type 0} (real : RealOps R) (double : Doubles R) where
  -- The datagram of a ping at time `now`.
  unfoldable pub ping_message : Bytes → Socket → R → Endpoint → ℕ → ℕ → (ℕ × Bytes) × Socket
  ping_message stack s now ep destid proto =
      let ((n, m), s') = packmsg s stack pingbufsize proto [] 0 in
      let (n1, m1) =
        if proto == Port.ping_srv then addmsg m pingbufsize n (le_bytes 1 destid) 1 else (n, m) in
      let (n2, m2) = addmsg m1 pingbufsize n1 (double.store now) 8 in
      (addmsg m2 pingbufsize n2 (store_endpoint ep) endpoint_size, s')

  unfoldable pub send_ping :
      Option ℕ → Bytes → Socket → R → Endpoint → ℕ → ℕ → List Datagram × Socket
  send_ping tx stack s now ep destid proto =
      let ((n, m), s') = ping_message stack s now ep destid proto in
      let (_, out, s2) = send_to tx s' m n ep in (out, s2)

  -- The time since the ping was sent, with the advanced message and length.
  unfoldable pub get_pingtime : R → Bytes → ℕ → R × Bytes × ℕ
  get_pingtime now msg msglen =
      if leb 8 msglen
      then (
        real.mul (real.of_nat 1000) (real.sub now (double.load (slice 0 8 msg))),
        drop 8 msg,
        msglen - 8,
      )
      else (real.neg_one, msg, msglen)
