-- ===== src/Client/Process.antt =====
-- `process_msg` with its handlers of pings and pongs: what the client does with a message that the
-- sorter hands out. The clock and the random choices of others are arguments; what goes out is a list
-- of actions, in their order.
pub mod Local
pub mod Opened
pub mod Answer
pub mod Echo
mod Tests
use libov.Prelude.{
  ℕ, ◌+◌, ◌%◌, ◌^◌, Bool, true, false, not, ◌&&◌, Option, none, some, List, [], ◌∷◌, ◌++◌, ltb,
  ◌==◌, if◌then◌else◌, slice, drop, write_at, get_elem?, sub_size,
}
use libov.Protocol.{header_len, max_stage_id}
use libov.Protocol.Port
use libov.Protocol.Mode
use libov.Endpoint.{Endpoint, endpoint_size, is_same_network}
use libov.Real.{RealOps}
use libov.Message.{Bytes, set_callerid, set_port}
use libov.Message.Buffer.{MsgBuf, msg_bytes}
use libov.Message.Crypt.{SealedBox}
use libov.CallerList.{cid_register, cid_setlocalip, cid_set_pubkey}
use libov.Socket.{Doubles, htons, get_pingtime}
use libov.Client.{Client, Request, to_endpoint}

-- A call of `local_server.send`, a call of `remote_server.send`, a call of `cb_ping`, and `add_value`
-- of the collector for a kind of pong and a device.
pub data Action (R : Type 0) : Type 0 where
  local : Bytes → ℕ → ℕ → Action R
  remote : Request → Action R
  pinged : ℕ → ℕ → R → Endpoint → Action R
  measured : ℕ → ℕ → R → Action R

-- What the client is afterwards, the message, and the actions.
abbrev pub Handled : Type 0 → Type 0
Handled R = Client R × MsgBuf × List (Action R)

-- The memory from the data on, and their length, behind the device where the server sent it on.
abbrev pub pong_data : MsgBuf → Bytes × ℕ
pong_data b =
    if b.destport == Port.pong_srv
    then (drop 1 (msg_bytes b), sub_size b.size 1)
    else (msg_bytes b, b.size)

module _ {R : Type 0} where
  -- The answer is made in the buffer of the message.
  unfoldable pub process_ping_msg : Client R → MsgBuf → Handled R
  process_ping_msg c b =
      let named = set_callerid c.callerid b.rawbuffer in
      let raw =
        if b.destport == Port.ping
        then set_port Port.pong named
        else if b.destport == Port.ping_srv
        then write_at b.msg_pos (b.cid ∷ []) (set_port Port.pong_srv named)
        else if b.destport == Port.ping_local
        then set_port Port.pong_local named
        else named in
      let b' : MsgBuf = record b { rawbuffer = raw } in
      (c, b', remote (to_endpoint raw (b.size + header_len) b.sender) ∷ [])

  unfoldable pub process_pong_msg : RealOps R → Doubles R → R → MsgBuf → List (Action R)
  process_pong_msg real double now b =
      let (tbuf, tsize) = pong_data b in
      let (tms, _, _) = get_pingtime real double now tbuf tsize in
      if real.lt (real.of_nat 0) tms
      then pinged b.cid b.destport tms b.sender ∷ measured b.destport b.cid tms ∷ []
      else []

  -- `endpoints[msg.cid].mode`; an index out of range reads as 0.
  abbrev pub mode_at : Client R → ℕ → ℕ
  mode_at c cid = elim (get_elem? c.list.endpoints cid) [ none ↦ 0 | some d ↦ d.mode ]

  -- To the port at an offset, but not to the port that this client listens on.
  unfoldable pub send_local : Client R → MsgBuf → Bytes → ℕ → ℕ → List (Action R)
  send_local c b msg len offset =
      if b.destport + offset == c.recport
      then []
      else local msg len ((b.destport + offset) % 2 ^ 16) ∷ []

  abbrev pub send_all : Client R → MsgBuf → Bytes → ℕ → List ℕ → List (Action R)
  send_all c b msg len [] = []
  send_all c b msg len (xd ∷ xds) = send_local c b msg len xd ++ send_all c b msg len xds

  -- The proxy clients but the sender; the port is stored with their addresses.
  abbrev pub send_proxies :
      MsgBuf → Bytes → ℕ → List (ℕ × Endpoint) → List (Action R) × List (ℕ × Endpoint)
  send_proxies b msg len [] = ([], [])
  send_proxies b msg len ((id, ep) ∷ clients) =
      let (out, clients') = send_proxies b msg len clients in
      let ep' : Endpoint = record ep { sin_port = htons b.destport } in
      if b.cid == id
      then (out, (id, ep) ∷ clients')
      else (remote (to_endpoint msg len ep') ∷ out, (id, ep') ∷ clients')

  module _ (box : SealedBox) where
    -- `send_msg` and `send_len`, and the memory for decrypted messages.
    abbrev pub opened : Client R → MsgBuf → Option Bytes → Bytes × ℕ × Bytes
    opened c b none = (msg_bytes b, b.size, c.decrypted)
    opened c b (some plain) =
        let memory = write_at 0 plain c.decrypted in (memory, sub_size b.size box.sealbytes, memory)

    unfoldable pub open_msg : Client R → MsgBuf → Bytes × ℕ × Bytes
    open_msg c b =
        if ltb b.cid max_stage_id
          && (Mode.has (mode_at c b.cid) Mode.encryption && Mode.has c.mode Mode.encryption)
        then opened c b (
            box.seal_open (slice b.msg_pos b.size b.rawbuffer) c.remote_server.recipient_public
              c.remote_server.recipient_secret)
        else (msg_bytes b, b.size, c.decrypted)

    unfoldable pub process_data_msg : Client R → MsgBuf → Handled R
    process_data_msg c b =
        let (msg, len, memory) = open_msg c b in
        let near = send_local c b msg len c.portoffset ++ send_all c b msg len c.xdest in
        let (far, clients) =
          if is_same_network b.sender c.localep
          then ([], c.proxyclients)
          else send_proxies b msg len c.proxyclients in
        (record c { decrypted = memory; proxyclients = clients }, b, near ++ far)

    -- The arguments: whether the lock of the list was free, crypto_box_PUBLICKEYBYTES, the time.
    unfoldable pub process_special_msg :
        RealOps R → Doubles R → Bool → ℕ → R → Client R → MsgBuf → Handled R
    process_special_msg real double free keybytes now c b =
        if b.destport == Port.ping
        then process_ping_msg c b
        else if b.destport == Port.ping_srv
        then process_ping_msg c b
        else if b.destport == Port.ping_local
        then process_ping_msg c b
        else if b.destport == Port.pong
        then (c, b, process_pong_msg real double now b)
        else if b.destport == Port.pong_srv
        then (c, b, process_pong_msg real double now b)
        else if b.destport == Port.pong_local
        then (c, b, process_pong_msg real double now b)
        else if b.destport == Port.setlocalip
        then (
          (if b.size == endpoint_size
              then record c { list = cid_setlocalip real b.cid (msg_bytes b) c.list }
              else c),
          b,
          [],
        )
        else if b.destport == Port.listcid
        then (
          (if b.size == endpoint_size && ltb b.seq 256
              then record c { list = cid_register real free b.cid (msg_bytes b) b.seq [] c.list }
              else c),
          b,
          [],
        )
        else if b.destport == Port.pubkey
        then (
          record c { list = cid_set_pubkey real keybytes b.cid (msg_bytes b) b.size c.list },
          b,
          [],
        )
        else (c, b, [])

    unfoldable pub process_msg :
        RealOps R → Doubles R → Bool → ℕ → R → Client R → MsgBuf → Handled R
    process_msg real double free keybytes now c msg =
        let b : MsgBuf = record msg { valid = false } in
        if b.cid == c.callerid
          && (not (b.destport == Port.listcid) && not (b.destport == Port.pubkey))
        then (c, b, [])
        else if ltb Port.maxspecialport b.destport
        then process_data_msg c b
        else process_special_msg real double free keybytes now c b
