-- ===== src/Client/Ping.antt =====
-- The round trip times of the client: `pingservice`, `update_client_stats` and the collectors that
-- `process_pong_msg` fills (src/ovboxclient.h, src/ovboxclient.cc).
pub mod Sent
pub mod Delta
pub mod Announce
mod Tests
use libov.Prelude.{
  ℕ, ◌+◌, ◌%◌, ◌^◌, Bool, true, false, not, ◌&&◌, Option, none, some, List, [], ◌∷◌, ◌++◌, ltb,
  ◌==◌, if◌then◌else◌, add_size,
}
use libov.Protocol.Port
use libov.Endpoint.{Endpoint}
use libov.Real.{RealOps}
use libov.Message.{Bytes}
use libov.CallerList.{EpDesc}
use libov.Sorter.{Stat, zero_stat}
use libov.Socket.{Socket, Datagram, Doubles, send_registration, send_ping}
use libov.PingStat.{Collector, PingStat, new_collector, add_value, update_ping_stat, minus_stat}
use libov.Client.{Client, is_listed, target_in_same_network}

-- The three maps of collectors; a new entry of a map is a collector for 2048 values.
pub record Collectors (R : Type 0) : Type 0 where
  pub p2p : ℕ → Collector R
  pub srv : ℕ → Collector R
  pub loc : ℕ → Collector R

pub record ClientStats (R : Type 0) : Type 0 where
  pub ping_p2p : PingStat R
  pub ping_srv : PingStat R
  pub ping_loc : PingStat R
  pub packages : Stat
  pub state_packages : Stat

abbrev pub at_key : {A : Type 0} → ℕ → (A → A) → (ℕ → A) → ℕ → A
at_key id f m j = if j == id then f (m j) else m j

-- The packets since the last report; a count of losses that went down reads as none.
unfoldable pub count_packages : Stat → Stat → Stat
count_packages now before =
    let packages = minus_stat now before in
    if ltb (2 ^ 30) packages.lost then record packages { lost = 0 } else packages

module _ {R : Type 0} (real : RealOps R) where
  abbrev pub new_collectors : Collectors R
  new_collectors = record {
    p2p = λ id. new_collector real 2048;
    srv = λ id. new_collector real 2048;
    loc = λ id. new_collector real 2048;
  }

  -- `stat` is what the sorter has counted for the device.
  unfoldable pub update_client_stats :
      Stat → Collectors R → ℕ → ClientStats R → Option (ClientStats R)
  update_client_stats stat cs cid stats = elim (update_ping_stat real (cs.p2p cid) stats.ping_p2p) [
    | none ↦ none
    | some p2p ↦ elim (update_ping_stat real (cs.srv cid) stats.ping_srv) [
      | none ↦ none
      | some srv ↦ elim (update_ping_stat real (cs.loc cid) stats.ping_loc) [
        | none ↦ none
        | some loc ↦ some (record {
          ping_p2p = p2p;
          ping_srv = srv;
          ping_loc = loc;
          packages = count_packages stat stats.state_packages;
          state_packages = stat;
        })
      ]
    ]
  ]

  -- `add_value` of the collector for a kind of pong and a device.
  abbrev pub stored : (Collector R → Collectors R) → Option (Collector R) → Option (Collectors R)
  stored put none = none
  stored put (some c) = some (put c)

  unfoldable pub record_pong : ℕ → ℕ → R → Collectors R → Option (Collectors R)
  record_pong destport cid tms cs =
      if destport == Port.pong
      then stored (λ c. record cs { p2p = at_key cid (λ old. c) cs.p2p })
          (add_value real tms (cs.p2p cid))
      else if destport == Port.pong_srv
      then stored (λ c. record cs { srv = at_key cid (λ old. c) cs.srv })
          (add_value real tms (cs.srv cid))
      else if destport == Port.pong_local
      then stored (λ c. record cs { loc = at_key cid (λ old. c) cs.loc })
          (add_value real tms (cs.loc cid))
      else some cs

-- `++sent`.
abbrev pub count_sent : {R : Type 0} → Collector R → Collector R
count_sent c = record c { sent = add_size c.sent 1 }

-- A round of the ping service: the socket, what was sent, the collectors, how many pings there were, and
-- whether every read of `endpoints[callerid]` was in bounds.
pub record PingRound (R : Type 0) : Type 0 where
  pub socket : Socket
  pub out : List Datagram
  pub stats : Collectors R
  pub pings : ℕ
  pub in_bounds : Bool

-- What `sendto` returns for the k-th ping, and the clock then.
module _ {R : Type 0} (real : RealOps R) (double : Doubles R) (tx : ℕ → Option ℕ) (now : ℕ → R)
    (stack : Bytes) where
  abbrev pub ping_to : Endpoint → ℕ → ℕ → PingRound R → PingRound R
  ping_to ep ocid proto r =
      let (sent, s) =
        send_ping real double (tx r.pings) stack r.socket (now r.pings) ep ocid proto in
      record r { socket = s; out = r.out ++ sent; pings = r.pings + 1 }

  abbrev pub count_p2p : ℕ → PingRound R → PingRound R
  count_p2p id r =
      let s = r.stats in record r { stats = record s { p2p = at_key id count_sent s.p2p } }

  abbrev pub count_srv : ℕ → PingRound R → PingRound R
  count_srv id r =
      let s = r.stats in record r { stats = record s { srv = at_key id count_sent s.srv } }

  abbrev pub count_loc : ℕ → PingRound R → PingRound R
  count_loc id r =
      let s = r.stats in record r { stats = record s { loc = at_key id count_sent s.loc } }

  -- A peer that is active and is not the client itself.
  abbrev pub is_pinged : Client R → ℕ → EpDesc R → Bool
  is_pinged c ocid d = not (d.timeout == 0) && not (ocid == c.callerid)

  unfoldable pub ping_peer : Client R → ℕ → EpDesc R → PingRound R → PingRound R
  ping_peer c ocid d r =
      let direct = count_p2p ocid (ping_to d.ep ocid Port.ping r) in
      let asked = count_srv ocid (ping_to direct.socket.serv_addr ocid Port.ping_srv direct) in
      let served = record asked { in_bounds = r.in_bounds && is_listed c } in
      let near = count_loc ocid (ping_to d.localep ocid Port.ping_local served) in
      if is_pinged c ocid d then (if target_in_same_network c d then near else served) else r

  -- The loop over the endpoints; `ocid` is a byte.
  abbrev pub ping_all : Client R → ℕ → List (EpDesc R) → PingRound R → PingRound R
  ping_all c ocid [] r = r
  ping_all c ocid (d ∷ ds) r = ping_all c ((ocid + 1) % 256) ds (ping_peer c ocid d r)

  -- The registration goes to the server first.
  unfoldable pub pingservice :
      (Option ℕ × Option ℕ × Option ℕ)
      → ℕ
      → (Bytes × Bytes × Bytes)
      → Bytes
      → Client R
      → Collectors R
      → PingRound R
  pingservice txs keybytes stacks rver c stats =
      let (out, s) =
        send_registration txs keybytes stacks rver c.remote_server c.mode c.toport c.localep in
      ping_all c 0 c.list.endpoints
        (record { socket = s; out = out; stats = stats; pings = 0; in_bounds = true })
