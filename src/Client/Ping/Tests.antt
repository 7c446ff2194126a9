-- ===== src/Client/Ping/Tests.antt =====
-- A round of pings of a client with one active peer, and reports on packets.
use libov.Prelude.{
  ℕ, ◌≡◌, ◌≤◌, length, some, List, none, [], ◌∷◌, replicate, arith, if◌then◌else◌, get_elem?,
}
use libov.Real.{nat_real}
use libov.Sorter.{Stat, zero_stat}
use libov.Client.Sample.{client, doubles}
use libov.Client.Ping.{Collectors, ClientStats, pingservice, new_collectors, count_sent}
use libov.Client.Ping.Sent.{direct, pick, is_sent, pingservice-sent}
use libov.PingStat.{PingStat, new_collector}
use libov.Client.Ping.Delta.{Grows, HaveRoom, Moment, AllGrow, report_all, total, report_all-total}

abbrev fresh : Collectors ℕ
fresh = new_collectors nat_real

-- Device 1 is active.
pingservice-sent_example :
    pick direct
      (pingservice nat_real doubles
        (λ k. none)
        (λ k. k)
        (replicate 160 0)
        (none, none, none)
        1
        (replicate 64 0, replicate 64 0, replicate 64 0)
        []
        client
        fresh).stats
      1
    ≡ (if is_sent direct client 1 (get_elem? client.list.endpoints 1)
        then count_sent (pick direct fresh 1)
        else pick direct fresh 1)
pingservice-sent_example =
    pingservice-sent nat_real doubles (λ k. none) (λ k. k) (replicate 160 0) (none, none, none) 1
      (replicate 64 0, replicate 64 0, replicate 64 0) [] client fresh direct 1 (omega arith)

abbrev counts : ℕ → Stat
counts n = record { received = n; lost = n; seqerr_in = n; seqerr_out = 0 }

abbrev no_pings : PingStat ℕ
no_pings = record {
  t_min = 0;
  t_med = 0;
  t_p99 = 0;
  t_mean = 0;
  received = 0;
  lost = 0;
  state_sent = 0;
  state_received = 0;
}

abbrev unreported : ClientStats ℕ
unreported = record {
  ping_p2p = no_pings;
  ping_srv = no_pings;
  ping_loc = no_pings;
  packages = zero_stat;
  state_packages = zero_stat;
}

-- Two values are held by the collector of direct pings.
abbrev measured : Collectors ℕ
measured = record {
  p2p = λ id. record {
    sent = 2;
    received = 2;
    values = 7 ∷ 5 ∷ 0 ∷ [];
    idx = 2;
    filled = 2;
    sum = 12;
  };
  srv = fresh.srv;
  loc = fresh.loc;
}

abbrev moments : List (Moment ℕ)
moments = (counts 2, fresh) ∷ (counts 5, measured) ∷ []

grow : (a b : ℕ) → a ≤ b → b ≤ 5 → Grows (counts a) (counts b)
grow a b h k = record {
  received_le = h;
  received_lt = omega arith;
  lost_le = h;
  lost_lt = omega arith;
  lost_few = omega arith;
  in_le = h;
  in_lt = omega arith;
  out_le = omega arith;
  out_lt = omega arith;
}

have_room :
    (cs : Collectors ℕ)
    → (cs.p2p 1).filled ≤ length (cs.p2p 1).values
    → (cs.srv 1).filled ≤ length (cs.srv 1).values
    → (cs.loc 1).filled ≤ length (cs.loc 1).values
    → HaveRoom 1 cs
have_room cs p s l = record { p2p_room = p; srv_room = s; loc_room = l }

moments-AllGrow : AllGrow 1 zero_stat moments
unfolding new_collector
moments-AllGrow = (
  grow 0 2 (omega arith) (omega arith),
  have_room fresh (omega arith) (omega arith) (omega arith),
  (
    grow 2 5 (omega arith) (omega arith),
    have_room measured (omega arith) (omega arith) (omega arith),
    tt,
  ),
)

report_all-total_example :
    (ps : List Stat) × (report_all nat_real 1 moments unreported ≡ some ps)
    × (total zero_stat ps ≡ counts 5)
report_all-total_example = report_all-total nat_real 1 moments unreported moments-AllGrow
