-- ===== src/Socket/Ping.antt =====
-- The message that `send_ping` packs (src/udpsocket.cc).
use libov.Prelude.{
  ℕ, ◌+◌, ◌^◌, ◌≤◌, ◌<◌, ◌≡◌, ◌∙◌, sym, [], ◌++◌, length, le_bytes, arith, length-append,
  length-le_bytes,
}
use libov.Protocol.{header_len}
use libov.Protocol.Port
use libov.Endpoint.{Endpoint, endpoint_size, store_endpoint, length-store_endpoint}
use libov.Real.{RealOps}
use libov.Message
use libov.Message.{Bytes, addmsg}
use libov.Message.Laws.{Packed, packmsg-Packed}
use libov.Message.Edit.{addmsg-Packed}
use libov.Socket.{Socket, Doubles, packmsg, pingbufsize, ping_message}
use libov.Socket.Pack.{IsSocket}

-- To the peer, to the server, and to the peer in the local network.
pub data Ping : Type 0 where
  direct served near : Ping

abbrev pub ping_port : Ping → ℕ
ping_port direct = Port.ping
ping_port served = Port.ping_srv
ping_port near = Port.ping_local

abbrev pub pong_port : Ping → ℕ
pong_port direct = Port.pong
pong_port served = Port.pong_srv
pong_port near = Port.pong_local

-- A device, where the server is asked to pass the ping on.
abbrev pub route : Ping → ℕ → Bytes
route direct id = []
route served id = le_bytes 1 id
route near id = []

module _ {R : Type 0} (double : Doubles R) where
  abbrev pub ping_data : Ping → ℕ → R → Endpoint → Bytes
  ping_data k id t ep = (route k id ++ double.store t) ++ store_endpoint ep

  timed_size : (t : R) (ep : Endpoint) → length (double.store t ++ store_endpoint ep) ≡ 24
  timed_size t ep = omega (
    arith,
    length-append (double.store t) (store_endpoint ep),
    length-store_endpoint ep,
    double.length-store t,
  )

  pub ping_data_short :
      (k : Ping) (id : ℕ) (t : R) (ep : Endpoint) → length (ping_data k id t ep) ≤ 25
  unfolding le_bytes
  ping_data_short direct id t ep = omega (arith, timed_size t ep)
  ping_data_short near id t ep = omega (arith, timed_size t ep)
  ping_data_short served id t ep = omega (arith, timed_size t ep)

  module _ (real : RealOps R) (s : Socket) (fits : IsSocket s) (stack : Bytes)
      (room : pingbufsize ≤ length stack) (t : R) (ep : Endpoint) (id : ℕ) where
    -- A message of the socket in the buffer of `send_ping`.
    abbrev pub InBuffer : ℕ → Bytes → ℕ × Bytes → Type 0
    InBuffer port msg (n, m) = Packed n s.secret s.callerid port 0 msg m × (length m ≡ length stack)

    start :
        (port : ℕ)
        → port < 2 ^ 16
        → InBuffer port [] (Message.packmsg stack pingbufsize s.secret s.callerid port 0 [] 0)
    start port h =
        let made =
          packmsg-Packed stack pingbufsize s.secret s.callerid port 0 [] fits.secret_fits
            fits.callerid_fits h (omega arith) (omega arith) room (omega arith) in
        (made.0, made.1)

    more-InBuffer :
        {port w : ℕ} {msg : Bytes} (more : Bytes) (nm : ℕ × Bytes)
        → InBuffer port msg nm
        → length more ≡ w
        → header_len + length msg + w ≤ pingbufsize
        → InBuffer port (msg ++ more) (addmsg nm.1 pingbufsize nm.0 more w)
    more-InBuffer {w = w} more nm h e k =
        let added =
          addmsg-Packed h.0 pingbufsize more (omega (arith, h.0.len)) (omega (arith, h.1))
            (omega arith) in
        rw (sym e) (added.0, added.1 ∙ h.1)

    stamped :
        {port : ℕ} {msg : Bytes} (nm : ℕ × Bytes)
        → InBuffer port msg nm
        → length msg ≤ 1
        → InBuffer port ((msg ++ double.store t) ++ store_endpoint ep) (
            let (n2, m2) = addmsg nm.1 pingbufsize nm.0 (double.store t) 8 in
            addmsg m2 pingbufsize n2 (store_endpoint ep) endpoint_size)
    stamped {msg = msg} nm h k =
        let timed = more-InBuffer (double.store t) nm h (double.length-store t) (omega arith) in
        more-InBuffer (store_endpoint ep) _ timed (length-store_endpoint ep)
          (omega (arith, length-append msg (double.store t), double.length-store t))

    pub ping_message-Packed :
        (k : Ping)
        → InBuffer
            (ping_port k)
            (ping_data k id t ep)
            (ping_message real double stack s t ep id (ping_port k)).0
    unfolding ping_message packmsg
    ping_message-Packed direct = stamped _ (start Port.ping (omega arith)) (omega arith)
    ping_message-Packed near = stamped _ (start Port.ping_local (omega arith)) (omega arith)
    ping_message-Packed served =
        let routed =
          more-InBuffer (le_bytes 1 id) _ (start Port.ping_srv (omega arith)) (length-le_bytes 1 id)
            (omega arith) in
        stamped _ routed (omega (arith, length-le_bytes 1 id))
