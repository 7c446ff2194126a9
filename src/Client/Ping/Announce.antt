-- ===== src/Client/Ping/Announce.antt =====
-- `announce_latency` (src/ovboxclient.cc): what the status thread of the endpoint list has the client
-- report of a peer, to its callback and to the server.
use libov.Prelude.{
  ℕ, ◌≤◌, ◌≡◌, sym, ◌+◌, Bool, Option, none, some, List, [], ◌∷◌, ◌++◌, ◌==◌, if◌then◌else◌, length,
  codes, arith, length-append,
}
use libov.Protocol.{buf_size}
use libov.Protocol.Port
use libov.Real.{RealOps}
use libov.Message.{Bytes}
use libov.Message.Laws.{Packed, packmsg-Packed}
use libov.Sorter.{Stat}
use libov.Socket.{Socket, Datagram, Doubles, packmsg, pack_and_send}
use libov.Socket.Pack.{IsSocket}
use libov.PingStat.{PingStat}
use libov.Client.{Client}
use libov.Client.Ping.{Collectors, ClientStats, update_client_stats}

-- What the callback is told of a kind of ping, if there is a callback, and pongs came.
abbrev pub latency_report : {R : Type 0} → Bool → Bytes → PingStat R → List (Bytes × PingStat R)
latency_report has_cb kind ps =
    if ps.received == 0 then [] else if has_cb then (kind, ps) ∷ [] else []

-- `client_stats_announce[cid]`, what the callback is told, what is sent, and the socket.
pub record Announced (R : Type 0) : Type 0 where
  pub stats : ClientStats R
  pub told : List (Bytes × PingStat R)
  pub out : List Datagram
  pub socket : Socket

module _ {R : Type 0} (real : RealOps R) (double : Doubles R) where
  -- `data`, as the bytes in its memory.
  abbrev pub peer_latency : ℕ → PingStat R → Bytes
  peer_latency cid p2p =
      double.store (real.of_nat cid)
      ++ (double.store p2p.t_min
          ++ (double.store p2p.t_med
              ++ (double.store p2p.t_p99
                  ++ (double.store (real.of_nat p2p.received)
                      ++ double.store (real.of_nat p2p.lost)))))

  abbrev announce :
      Bool → Option ℕ → Bytes → Client R → ℕ → Option (ClientStats R) → Option (Announced R)
  announce has_cb tx stack c cid none = none
  announce has_cb tx stack c cid (some stats) =
      let (ok, out, s) =
        pack_and_send tx stack c.remote_server Port.peerlatrep (peer_latency cid stats.ping_p2p) 48
          c.toport in
      some (record {
        stats = stats;
        told =
            latency_report has_cb (codes "p2p") stats.ping_p2p
            ++ (latency_report has_cb (codes "srv") stats.ping_srv
                ++ latency_report has_cb (codes "loc") stats.ping_loc);
        out = out;
        socket = s;
      })

  -- The arguments: whether there is a callback, what the sorter has counted for the device, what
  -- `sendto` returns, and the buffer.
  unfoldable pub announce_latency :
      Bool
      → Stat
      → Option ℕ
      → Bytes
      → Client R
      → Collectors R
      → ℕ
      → ClientStats R
      → Option (Announced R)
  announce_latency has_cb stat tx stack c cs cid stats =
      let updated = update_client_stats real stat cs cid stats in
      if cid == c.callerid
      then some (record { stats = stats; told = []; out = []; socket = c.remote_server })
      else announce has_cb tx stack c cid updated

  double_more : (x : R) (bs : Bytes) → length (double.store x ++ bs) ≡ 8 + length bs
  double_more x bs = omega (arith, length-append (double.store x) bs, double.length-store x)

  length-peer_latency : (cid : ℕ) (p2p : PingStat R) → length (peer_latency cid p2p) ≡ 48
  length-peer_latency cid p2p =
      rw
        (
          double_more (real.of_nat cid),
          double_more p2p.t_min,
          double_more p2p.t_med,
          double_more p2p.t_p99,
          double_more (real.of_nat p2p.received),
        )
        (omega (arith, double.length-store (real.of_nat p2p.lost)))

  -- The message for the server holds the six numbers.
  pub peer_latency-Packed :
      (s : Socket) (stack : Bytes) (cid : ℕ) (p2p : PingStat R)
      → IsSocket s
      → buf_size ≤ length stack
      → let ((n, m), s') = packmsg s stack buf_size Port.peerlatrep (peer_latency cid p2p) 48 in
        Packed n s.secret s.callerid Port.peerlatrep 0 (peer_latency cid p2p) m
  unfolding packmsg
  peer_latency-Packed s stack cid p2p fits room =
      let size = length-peer_latency cid p2p in
      let packed =
        packmsg-Packed stack buf_size s.secret s.callerid Port.peerlatrep 0 (peer_latency cid p2p)
          fits.secret_fits fits.callerid_fits (omega arith) (omega arith) (omega (arith, size)) room
          (omega arith) in
      rw (sym size) packed.0
