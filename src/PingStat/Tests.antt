-- ===== src/PingStat/Tests.antt =====
-- A collector for three values, into which four come; numbers stand for floats.
use libov.Prelude.{ℕ, ◌≡◌, some, List, [], ◌∷◌, arith, take}
use libov.Real.{nat_real}
use libov.PingStat.{Collector, PingStat, new_collector, add_values, update_ping_stat}
use libov.PingStat.Window.{HoldsLast, add_values-new}
use libov.PingStat.Report.{IsOrder, IsLeast, Finds, update_ping_stat-Finds}

nat-IsOrder : IsOrder nat_real
nat-IsOrder = record {
  lt_asym = λ a b h. ground (arith, h);
  ge_trans = λ a b c h k. ground (arith, h, k);
}

abbrev times : List ℕ
times = 5 ∷ 7 ∷ 6 ∷ 9 ∷ []

add_values-new_example :
    (c : Collector ℕ) × ((add_values nat_real times (new_collector nat_real 3) ≡ some c)
      × HoldsLast nat_real 3 times c)
add_values-new_example = add_values-new nat_real 3 times (omega arith)

-- The collector after them.
held :
    (c : Collector ℕ) × ((add_values nat_real times (new_collector nat_real 3) ≡ some c)
      × HoldsLast nat_real 3 times c)
held = add_values-new nat_real 3 times (omega arith)

abbrev no_report : PingStat ℕ
no_report = record {
  t_min = 0;
  t_med = 0;
  t_p99 = 0;
  t_mean = 0;
  received = 0;
  lost = 0;
  state_sent = 0;
  state_received = 0;
}

update_ping_stat-Finds_example :
    Finds
      (λ (q : PingStat ℕ). IsLeast nat_real q.t_min (take held.0.filled held.0.values))
      (update_ping_stat nat_real held.0 no_report)
update_ping_stat-Finds_example =
    update_ping_stat-Finds nat_real nat-IsOrder 3 times held.0 no_report held.1.1 (omega arith)
      (omega arith)
