-- ===== src/Client/Process/Answer.antt =====
-- What a client does with a ping and with a pong: `process_ping_msg` and `process_pong_msg`.
use libov.Prelude.{
  ℕ, suc, ge→ltb, ◌+◌, ◌%◌, ◌^◌, ◌≤◌, ◌<◌, ◌≡◌, ◌≢◌, ◌∙◌, refl, sym, ap, Bool, true, false, List,
  [], ◌∷◌, ◌==◌, length, ◌++◌, if◌then◌else◌, take, drop, le_bytes, write_at, arith, slice-take,
  length-append, take-append, sub_size, leb,
}
use libov.Protocol.{buf_size, header_len}
use libov.Protocol.Port
use libov.Endpoint.{Endpoint, store_endpoint, length-store_endpoint}
use libov.Real.{RealOps}
use libov.Message.{Bytes, set_callerid, set_port}
use libov.Message.Laws.{Packed}
use libov.Message.Edit.{set_callerid-Packed, set_port-Packed, write_first-Packed, take_tail}
use libov.Message.Buffer.{MsgBuf}
use libov.Message.Crypt.{SealedBox}
use libov.Socket.{Doubles, get_pingtime}
use libov.Socket.Deliver.{Delivered}
use libov.Socket.Ping.{Ping, direct, served, near, ping_port, pong_port, ping_data}
use libov.Client.{Client, to_endpoint}
use libov.Client.Process.{
  Action, remote, pinged, measured, process_ping_msg, process_pong_msg, process_special_msg,
  process_msg,
}

le→leb : (a b : ℕ) → a ≤ b → leb a b ≡ true
le→leb a b h = ground arith

ne→==_false : (a b : ℕ) → a ≢ b → (a == b) ≡ false
ne→==_false a b h = ground arith

-- The answer of a client to a ping of device `cid` in the buffer.
abbrev pub reply : {R : Type 0} → Client R → MsgBuf → ℕ → Ping → Bytes
reply b x cid direct = set_port Port.pong (set_callerid b.callerid x.rawbuffer)
reply b x cid near = set_port Port.pong_local (set_callerid b.callerid x.rawbuffer)
reply b x cid served =
    write_at header_len (cid ∷ []) (set_port Port.pong_srv (set_callerid b.callerid x.rawbuffer))

-- Device `cid` has answered: the milliseconds since the ping, if there are some, are reported.
abbrev pub Measures :
    {R : Type 0} → RealOps R → R → R → ℕ → Endpoint → Ping → List (Action R) → Type 0
Measures real t now cid from k out =
    let tms = real.mul (real.of_nat 1000) (real.sub now t) in
    out ≡ (
      if real.lt (real.of_nat 0) tms
      then pinged cid (pong_port k) tms from ∷ measured (pong_port k) cid tms ∷ []
      else [])

module _ {R : Type 0} (box : SealedBox) (real : RealOps R) (double : Doubles R) (free : Bool)
    (keybytes : ℕ) (t : R) (ep : Endpoint) where
  -- The buffer of a delivered message, as `process_msg` hands it on.
  abbrev settled : MsgBuf → ℕ → ℕ → ℕ → Endpoint → MsgBuf
  settled x cid port size from = record x {
    valid = false;
    cid = cid;
    destport = port;
    size = size;
    msg_pos = header_len;
    sender = from;
  }

  handled :
      {n secret cid port seq : ℕ} {body : Bytes} {from : Endpoint} {x : MsgBuf}
      → (now : R) (c : Client R) → Delivered n secret cid port seq body from x
      → cid ≢ c.callerid
      → port ≤ Port.maxspecialport
      → process_msg box real double free keybytes now c x
        ≡ process_special_msg box real double free keybytes now c
            (settled x cid port (length body) from)
  unfolding process_msg
  handled {cid = cid} {port = port} {body = body} {from = from} {x = x} now c d other special =
      rw (d.has_cid, d.has_port, ne→==_false cid c.callerid other, ge→ltb 12 port special)
        (λ i. process_special_msg box real double free keybytes now c (record x {
          valid = false;
          cid = cid;
          destport = port;
          size = d.has_size i;
          msg_pos = d.has_pos i;
          sender = d.has_sender i;
        }))

  -- What a client does with a ping.
  module _ (now : R) (b : Client R) (fits : b.callerid < 2 ^ 8) (x : MsgBuf) (n secret cid id : ℕ)
      (from : Endpoint) (low : cid < 2 ^ 8) (other : cid ≢ b.callerid) (small : n ≤ buf_size) where
    reply_sent :
        (k : Ping) (size : ℕ)
        → (process_special_msg box real double free keybytes now b
            (settled x cid (ping_port k) size from)).2
          ≡ remote (to_endpoint (reply b x cid k) (size + header_len) from) ∷ []
    unfolding process_special_msg process_ping_msg
    reply_sent direct size = refl
    reply_sent served size = refl
    reply_sent near size = refl

    -- The message under the name of this device.
    renamed :
        {port : ℕ} {body m : Bytes} (q : ℕ)
        → q < 2 ^ 16
        → Packed n secret cid port 0 body m
        → buf_size ≤ length m
        → let raw = set_port q (set_callerid b.callerid m) in
          Packed n secret b.callerid q 0 body raw × (length raw ≡ length m)
    renamed {m = m} q h p room =
        let named = set_callerid-Packed p b.callerid fits (omega arith) in
        let moved = set_port-Packed named.0 q h (omega (arith, named.1)) in
        (moved.0, moved.1 ∙ named.1)

    pub reply-Packed :
        (k : Ping)
        → Delivered n secret cid (ping_port k) 0 (ping_data double k id t ep) from x
        → Packed n secret b.callerid (pong_port k) 0 (ping_data double k cid t ep) (reply b x cid k)
          × (length (reply b x cid k) ≡ length x.rawbuffer)
    unfolding le_bytes
    reply-Packed direct d = renamed Port.pong (omega arith) d.packed d.room
    reply-Packed near d = renamed Port.pong_local (omega arith) d.packed d.room
    reply-Packed served d =
        let r = renamed Port.pong_srv (omega arith) d.packed d.room in
        let byte : cid % 256 ≡ cid = omega arith in
        let w = write_first-Packed cid r.0 (omega (arith, r.1, d.room)) in (rw byte w.0, w.1 ∙ r.1)

    pub answers :
        (k : Ping)
        → Delivered n secret cid (ping_port k) 0 (ping_data double k id t ep) from x
        → (process_msg box real double free keybytes now b x).2
          ≡ remote (to_endpoint (reply b x cid k) n from) ∷ []
    answers k d =
        let size : length (ping_data double k id t ep) + header_len ≡ n =
          omega (arith, d.packed.len) in
        ap (λ h. h.2) (handled now b d other (grind arith))
        ∙ reply_sent k _
        ∙ ap (λ s. remote (to_endpoint (reply b x cid k) s from) ∷ []) size

  -- The time point in front of other bytes.
  stamp :
      (rest m : Bytes)
      → take (length (double.store t ++ rest)) m ≡ double.store t ++ rest
      → take 8 m ≡ double.store t
  stamp rest m h =
      sym (
        slice-take 0 8 (length (double.store t ++ rest)) m
          (omega (arith, length-append (double.store t) rest, double.length-store t)))
      ∙ ap (take 8) h
      ∙ ap (λ k. take k (double.store t ++ rest)) (sym (double.length-store t))
      ∙ take-append (double.store t) rest

  -- What a client does with a pong.
  module _ (now : R) (a : Client R) (x : MsgBuf) (n secret cid id : ℕ) (from : Endpoint)
      (other : cid ≢ a.callerid) where
    time_read :
        (rest m : Bytes) (len : ℕ)
        → take (length (double.store t ++ rest)) m ≡ double.store t ++ rest
        → len ≡ length (double.store t ++ rest)
        → (get_pingtime real double now m len).0 ≡ real.mul (real.of_nat 1000) (real.sub now t)
    unfolding get_pingtime
    time_read rest m len h e =
        let long : leb 8 len ≡ true =
          le→leb 8 len
            (omega (arith, length-append (double.store t) rest, double.length-store t)) in
        rw (long, stamp rest m h, double.load-store t) refl

    told :
        (k : Ping)
        → Delivered n secret cid (pong_port k) 0 (ping_data double k id t ep) from x
        → Measures real t now cid from k
            (process_special_msg box real double free keybytes now a
              (settled x cid (pong_port k) (length (ping_data double k id t ep)) from)).2
    unfolding process_special_msg process_pong_msg le_bytes
    told direct d =
        rw (time_read (store_endpoint ep) (drop header_len x.rawbuffer) _ d.packed.payload refl)
          refl
    told near d =
        rw (time_read (store_endpoint ep) (drop header_len x.rawbuffer) _ d.packed.payload refl)
          refl
    told served d =
        let rest = double.store t ++ store_endpoint ep in
        let behind =
          take_tail (length rest) (id % 256) rest (drop header_len x.rawbuffer) d.packed.payload in
        let size : sub_size (suc (length rest)) 1 ≡ length rest = omega (
          arith,
          length-append (double.store t) (store_endpoint ep),
          double.length-store t,
          length-store_endpoint ep,
        ) in
        rw (time_read (store_endpoint ep) (drop 1 (drop header_len x.rawbuffer)) _ behind size) refl

    pub measures :
        (k : Ping)
        → Delivered n secret cid (pong_port k) 0 (ping_data double k id t ep) from x
        → Measures real t now cid from k (process_msg box real double free keybytes now a x).2
    measures k d = ap (λ h. h.2) (handled now a d other (grind arith)) ∙ told k d
