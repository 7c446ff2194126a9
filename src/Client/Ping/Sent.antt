-- ===== src/Client/Ping/Sent.antt =====
-- What a round of the ping service counts.
use mathlib.Core.Path.{subst}
use libov.Prelude.{
  ℕ, zero, suc, ◌+◌, ◌%◌, ◌<◌, ◌≤◌, ◌≡◌, ◌∙◌, refl, ap, Bool, true, false, not, ◌&&◌, Option, none,
  some, List, [], ◌∷◌, ◌==◌, if◌then◌else◌, length, get_elem?, arith,
}
use libov.Real.{RealOps}
use libov.Message.{Bytes}
use libov.CallerList.{EpDesc}
use libov.Socket.{Doubles, send_registration}
use libov.PingStat.{Collector}
use libov.Client.{Client, target_in_same_network}
use libov.Client.Ping.{Collectors, at_key, count_sent, PingRound, ping_peer, ping_all, pingservice}

-- Straight to the peer, by the server, in the local network.
pub data Kind : Type 0 where
  direct served near : Kind

-- Whether a ping of this kind is sent to an active peer or one in the same network.
abbrev pub is_kind : Kind → Bool → Bool → Bool
is_kind direct active same = active
is_kind served active same = active
is_kind near active same = active && same

byte : (i : ℕ) → i < 255 → i + 1 ≡ (i + 1) % 256
byte i h = omega (arith, h)

apart : (i n j : ℕ) → j ≡ i + suc n → (j == i) ≡ false
apart i n j h = ground arith

differ : (i j : ℕ) → j < i → (j == i) ≡ false
differ i j h = ground arith

module _ {R : Type 0} where
  abbrev pub pick : Kind → Collectors R → ℕ → Collector R
  pick direct cs = cs.p2p
  pick served cs = cs.srv
  pick near cs = cs.loc

  -- Whether the peer is sent a ping of this kind: it is active and not the client itself, and in the
  -- same network for a ping there.
  abbrev pub is_sent : Kind → Client R → ℕ → Option (EpDesc R) → Bool
  is_sent k c id none = false
  is_sent k c id (some d) =
      is_kind k (not (d.timeout == 0) && not (id == c.callerid)) (target_in_same_network c d)

  here : (i : ℕ) (f : Collector R → Collector R) (m : ℕ → Collector R) → at_key i f m i ≡ f (m i)
  here i f m = ground arith

  counted : Bool → Bool → ℕ → Collectors R → Collectors R
  counted false same i cs = cs
  counted true false i cs = record cs {
    p2p = at_key i count_sent cs.p2p;
    srv = at_key i count_sent cs.srv;
  }
  counted true true i cs = record cs {
    p2p = at_key i count_sent cs.p2p;
    srv = at_key i count_sent cs.srv;
    loc = at_key i count_sent cs.loc;
  }

  counted-here :
      (k : Kind) (active same : Bool) (i : ℕ) (cs : Collectors R)
      → pick k (counted active same i cs) i
        ≡ (if is_kind k active same then count_sent (pick k cs i) else pick k cs i)
  unfolding counted
  counted-here direct false same i cs = refl
  counted-here served false same i cs = refl
  counted-here near false same i cs = refl
  counted-here direct true false i cs = here i count_sent cs.p2p
  counted-here served true false i cs = here i count_sent cs.srv
  counted-here near true false i cs = refl
  counted-here direct true true i cs = here i count_sent cs.p2p
  counted-here served true true i cs = here i count_sent cs.srv
  counted-here near true true i cs = here i count_sent cs.loc

  counted-elsewhere :
      (k : Kind) (active same : Bool) (i j : ℕ) (cs : Collectors R)
      → (j == i) ≡ false
      → pick k (counted active same i cs) j ≡ pick k cs j
  unfolding counted
  counted-elsewhere direct false same i j cs h = refl
  counted-elsewhere served false same i j cs h = refl
  counted-elsewhere near false same i j cs h = refl
  counted-elsewhere direct true false i j cs h = rw h refl
  counted-elsewhere served true false i j cs h = rw h refl
  counted-elsewhere near true false i j cs h = refl
  counted-elsewhere direct true true i j cs h = rw h refl
  counted-elsewhere served true true i j cs h = rw h refl
  counted-elsewhere near true true i j cs h = rw h refl

  peer_stats :
      (active same : Bool) (i : ℕ) (r served_round near_round : PingRound R)
      → served_round.stats ≡ counted true false i r.stats
      → near_round.stats ≡ counted true true i r.stats
      → (if active then (if same then near_round else served_round) else r).stats
        ≡ counted active same i r.stats
  unfolding counted
  peer_stats false same i r s n es en = refl
  peer_stats true false i r s n es en = es
  peer_stats true true i r s n es en = en

module _ {R : Type 0} (real : RealOps R) (double : Doubles R) (tx : ℕ → Option ℕ) (now : ℕ → R)
    (stack : Bytes) where
  ping_peer-stats :
      (c : Client R) (i : ℕ) (d : EpDesc R) (r : PingRound R)
      → (ping_peer real double tx now stack c i d r).stats
        ≡ counted
            (not (d.timeout == 0) && not (i == c.callerid))
            (target_in_same_network c d)
            i
            r.stats
  unfolding ping_peer counted
  ping_peer-stats c i d r =
      peer_stats (not (d.timeout == 0) && not (i == c.callerid)) (target_in_same_network c d) i r _
        _ refl refl

  -- The loop leaves the counts of the devices before.
  ping_all-before :
      (k : Kind) (c : Client R) (i id : ℕ) (ds : List (EpDesc R)) (r : PingRound R)
      → id < i
      → i + length ds ≤ 255
      → pick k (ping_all real double tx now stack c i ds r).stats id ≡ pick k r.stats id
  ping_all-before k c i id [] r h room = refl
  ping_all-before k c i id (d ∷ ds) r h room =
      let r' = ping_peer real double tx now stack c i d r in
      let active = not (d.timeout == 0) && not (i == c.callerid) in
      let same = target_in_same_network c d in
      subst (λ j. pick k (ping_all real double tx now stack c j ds r').stats id ≡ pick k r.stats id)
        (byte i (omega (arith, room)))
        (ping_all-before k c (i + 1) id ds r' (omega (arith, h)) (omega (arith, room))
          ∙ ap (λ cs. pick k cs id) (ping_peer-stats c i d r)
          ∙ counted-elsewhere k active same i id r.stats (differ i id h))

  ping_all-sent :
      (k : Kind) (c : Client R) (i n id : ℕ) (ds : List (EpDesc R)) (r : PingRound R)
      → id ≡ i + n
      → i + length ds ≤ 255
      → pick k (ping_all real double tx now stack c i ds r).stats id ≡ (
          if is_sent k c id (get_elem? ds n)
          then count_sent (pick k r.stats id)
          else pick k r.stats id)
  ping_all-sent k c i n id [] r e room = refl
  ping_all-sent k c i zero id (d ∷ ds) r e room =
      let r' = ping_peer real double tx now stack c i d r in
      let active = not (d.timeout == 0) && not (i == c.callerid) in
      subst
        (λ j.
          pick k (ping_all real double tx now stack c i (d ∷ ds) r).stats j
          ≡ (if is_sent k c j (some d) then count_sent (pick k r.stats j) else pick k r.stats j))
        (omega (arith, e))
        (subst
            (λ j. pick k (ping_all real double tx now stack c j ds r').stats i ≡ pick k r'.stats i)
            (byte i (omega (arith, room)))
            (ping_all-before k c (i + 1) i ds r' (omega arith) (omega (arith, room)))
          ∙ ap (λ cs. pick k cs i) (ping_peer-stats c i d r)
          ∙ counted-here k active (target_in_same_network c d) i r.stats)
  ping_all-sent k c i (suc n) id (d ∷ ds) r e room =
      let r' = ping_peer real double tx now stack c i d r in
      let active = not (d.timeout == 0) && not (i == c.callerid) in
      let hit = is_sent k c id (get_elem? ds n) in
      subst
        (λ j.
          pick k (ping_all real double tx now stack c j ds r').stats id
          ≡ (if hit then count_sent (pick k r'.stats id) else pick k r'.stats id))
        (byte i (omega (arith, room)))
        (ping_all-sent k c (i + 1) n id ds r' (omega (arith, e)) (omega (arith, room)))
      ∙ ap (λ x. if hit then count_sent x else x)
          (ap (λ cs. pick k cs id) (ping_peer-stats c i d r)
            ∙ counted-elsewhere k active (target_in_same_network c d) i id r.stats (apart i n id e))

  -- After a round of the ping service, for a list of at most 255 endpoints: a ping of each kind is counted
  -- once for each peer that is active and is not the client itself, the one in the local network only
  -- where both are in the same network, and nothing else about the times has changed.
  pub pingservice-sent :
      (txs : Option ℕ × Option ℕ × Option ℕ) (keybytes : ℕ) (stacks : Bytes × Bytes × Bytes)
      (rver : Bytes) (c : Client R) (cs : Collectors R) (k : Kind) (id : ℕ)
      → length c.list.endpoints ≤ 255
      → pick k (pingservice real double tx now stack txs keybytes stacks rver c cs).stats id ≡ (
          if is_sent k c id (get_elem? c.list.endpoints id)
          then count_sent (pick k cs id)
          else pick k cs id)
  unfolding pingservice
  pingservice-sent txs keybytes stacks rver c cs k id room =
      let (out, s) =
        send_registration txs keybytes stacks rver c.remote_server c.mode c.toport c.localep in
      ping_all-sent k c 0 id id c.list.endpoints
        (record { socket = s; out = out; stats = cs; pings = 0; in_bounds = true }) (omega arith)
        (omega (arith, room))
