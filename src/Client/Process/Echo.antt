-- ===== src/Client/Process/Echo.antt =====
-- A ping on its way to another client and back: `send_ping`, `process_msg` there, and `process_msg`
-- here.
use libov.Prelude.{
  ℕ, ◌^◌, ◌≤◌, ◌<◌, ◌≡◌, ◌≢◌, ◌∙◌, refl, sym, Bool, true, Option, some, [], ◌∷◌, length, take,
  arith,
}
use libov.Protocol.{buf_size}
use libov.Endpoint.{Endpoint}
use libov.Real.{RealOps}
use libov.Message.{Bytes}
use libov.Message.Buffer.{MsgBuf}
use libov.Message.Crypt.{SealedBox}
use libov.Socket.{Doubles, pingbufsize, ping_message, send_to, send_ping, recv_sec_msg}
use libov.Socket.Pack.{IsSocket}
use libov.Socket.Deliver.{recv_sec_msg-Delivered}
use libov.Socket.Ping.{ping_message-Packed, ping_data_short, Ping, ping_port, pong_port, ping_data}
use libov.Client.{Client, to_endpoint}
use libov.Client.Process.{remote, process_msg}
use libov.Client.Process.Answer.{reply, reply-Packed, answers, Measures, measures}

module _ {R : Type 0} (box : SealedBox) (real : RealOps R) (double : Doubles R) (free : Bool)
    (keybytes : ℕ) (t : R) (ep : Endpoint) (a later b : Client R) (fits : IsSocket a.remote_server)
    (low : b.callerid < 2 ^ 8) (named : a.remote_server.callerid ≡ a.callerid)
    (other : a.callerid ≢ b.callerid) (shared : b.remote_server.secret ≡ a.remote_server.secret)
    (kept : later.remote_server.secret ≡ a.remote_server.secret)
    (itself : later.callerid ≡ a.callerid) (stack : Bytes) (room : pingbufsize ≤ length stack)
    (bufa bufb : MsgBuf) (rooma : buf_size ≤ length bufa.rawbuffer)
    (roomb : buf_size ≤ length bufb.rawbuffer) (tx : Option ℕ) (id : ℕ) (t1 t2 : R)
    (froma fromb : Endpoint) where
  -- Two clients have different identifiers and the same secret, these fit their types, and the buffers
  -- have room. A ping of any kind that one of them sends, and the other receives as it was sent, is
  -- accepted there and answered with one datagram. When that is received by the first client as it
  -- was sent, it is accepted; if the time since the ping is more than 0, it is reported once and
  -- added once to the times of that kind and of the other client, and nothing else happens;
  -- otherwise nothing does.
  pub process_msg-send_ping :
      (k : Ping)
      → (ping raw : Bytes) × (n : ℕ) × ((send_ping real double tx stack a.remote_server t ep id
            (ping_port k)).0
          ≡ record { payload = ping; dest = ep } ∷ [])
        × (let (ok, x, _) = recv_sec_msg (some (ping, froma)) b.remote_server bufb in
            (ok ≡ true)
            × ((process_msg box real double free keybytes t1 b x).2
                ≡ remote (to_endpoint raw n froma) ∷ []))
        × (let (ok, y, _) = recv_sec_msg (some (take n raw, fromb)) later.remote_server bufa in
            (ok ≡ true)
            × Measures real t t2 b.callerid fromb k
                (process_msg box real double free keybytes t2 later y).2)
  unfolding send_ping send_to
  process_msg-send_ping k =
      let sent = ping_message-Packed double real a.remote_server fits stack room t ep id k in
      let (n, m) = (ping_message real double stack a.remote_server t ep id (ping_port k)).0 in
      let short : n ≤ 34 = omega (arith, sent.0.len, ping_data_short double k id t ep) in
      let there =
        recv_sec_msg-Delivered b.remote_server bufb froma n a.callerid (ping_port k) 0
          (ping_data double k id t ep) m (rw (shared, sym named) sent.0)
          (omega (arith, short, sent.1, room)) roomb (omega arith) in
      let x = (recv_sec_msg (some (take n m, froma)) b.remote_server bufb).1 in
      let known : a.callerid < 2 ^ 8 = omega (arith, named, fits.callerid_fits) in
      let made =
        reply-Packed box real double free keybytes t ep t1 b low x n b.remote_server.secret
          a.callerid id froma known other (omega arith) k there.1 in
      let raw = reply b x a.callerid k in
      let back =
        recv_sec_msg-Delivered later.remote_server bufa fromb n b.callerid (pong_port k) 0
          (ping_data double k a.callerid t ep) raw (rw (kept ∙ sym shared) made.0)
          (omega (arith, made.1, there.1.room)) rooma (omega arith) in
      (
        take n m,
        raw,
        n,
        refl,
        (
          there.0,
          answers box real double free keybytes t ep t1 b low x n b.remote_server.secret a.callerid
              id froma known other (omega arith) k there.1,
        ),
        (
          back.0,
          measures box real double free keybytes t ep t2 later _ n later.remote_server.secret
              b.callerid a.callerid fromb (λ e. other (sym (e ∙ itself))) k back.1,
        ),
      )
