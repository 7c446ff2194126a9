-- ===== src/PingStat.antt =====
-- `ping_stat_collector_t`, `ping_stat_t` and `message_stat_t` (src/ovboxclient.cc, src/ov_types.cc): the
-- last round trip times of a peer in a ring, and what is reported of them since the last report.
-- A `size_t` wraps at 2^64, an access out of bounds is `none`.
pub mod Window
pub mod Report
mod Tests
use libov.Prelude.{
  ℕ, zero, suc, ◌+◌, ◌-◌, ◌*◌, ◌/◌, ◌%◌, ◌^◌, min, Bool, Option, none, some, List, [], ◌∷◌, ltb,
  leb, ◌==◌, if◌then◌else◌, length, get_elem?, set, take, replicate, add_size, sub_size,
}
use libov.Real.{RealOps}
use libov.Sorter.{Stat}

pub record Collector (R : Type 0) : Type 0 where
  pub sent : ℕ
  pub received : ℕ
  pub values : List R
  pub idx : ℕ
  pub filled : ℕ
  pub sum : R

pub record PingStat (R : Type 0) : Type 0 where
  pub t_min : R
  pub t_med : R
  pub t_p99 : R
  pub t_mean : R
  pub received : ℕ
  pub lost : ℕ
  pub state_sent : ℕ
  pub state_received : ℕ

-- `message_stat_t::operator+=` and `operator-=`.
unfoldable pub plus_stat : Stat → Stat → Stat
plus_stat a b = record {
  received = add_size a.received b.received;
  lost = add_size a.lost b.lost;
  seqerr_in = add_size a.seqerr_in b.seqerr_in;
  seqerr_out = add_size a.seqerr_out b.seqerr_out;
}

unfoldable pub minus_stat : Stat → Stat → Stat
minus_stat a b = record {
  received = sub_size a.received b.received;
  lost = sub_size a.lost b.lost;
  seqerr_in = sub_size a.seqerr_in b.seqerr_in;
  seqerr_out = sub_size a.seqerr_out b.seqerr_out;
}

-- `std::round(0.5f * (filled - 1.0))`: a half is rounded up.
unfoldable pub median_index : ℕ → ℕ
median_index filled = filled / 2

-- `std::round(0.99f * (filled - 1.0))`: the float 0.99f is 16609444 / 2^24, and the product is exact in
-- a double while there are at most 2^24 values.
unfoldable pub p99_index : ℕ → ℕ
p99_index filled = (2 * 16609444 * (filled - 1) + 2 ^ 24) / 2 ^ 25

module _ {R : Type 0} (real : RealOps R) where
  unfoldable pub new_collector : ℕ → Collector R
  new_collector n = record {
    sent = 0;
    received = 0;
    values = replicate n (real.of_nat 0);
    idx = 0;
    filled = 0;
    sum = real.of_nat 0;
  }

  -- The old value at the place is taken out of the sum.
  abbrev pub replace_value : R → Collector R → Option R → Option (Collector R)
  replace_value pt c none = none
  replace_value pt c (some old) = some (record {
    sent = c.sent;
    received = add_size c.received 1;
    values = set c.values c.idx pt;
    idx = (if leb (length c.values) (c.idx + 1) then 0 else c.idx + 1);
    filled = (if ltb c.filled (length c.values) then c.filled + 1 else c.filled);
    sum = real.add (real.sub c.sum old) pt;
  })

  unfoldable pub add_value : R → Collector R → Option (Collector R)
  add_value pt c = replace_value pt c (get_elem? c.values c.idx)

  -- The values in turn, the first one first.
  abbrev pub add_values : List R → Collector R → Option (Collector R)
  add_values [] c = some c
  add_values (v ∷ vs) c = elim (add_value v c) [ none ↦ none | some c' ↦ add_values vs c' ]

  -- `std::sort`.
  abbrev pub insert : R → List R → List R
  insert x [] = x ∷ []
  insert x (y ∷ ys) = if real.lt y x then y ∷ insert x ys else x ∷ (y ∷ ys)

  abbrev pub sort : List R → List R
  sort [] = []
  sort (x ∷ xs) = insert x (sort xs)

  -- The median of sorted values; of an even number, the mean of two neighbours.
  unfoldable pub median : ℕ → List R → Option R
  median filled sb = elim (get_elem? sb (median_index filled)) [
    | none ↦ none
    | some m ↦
        if filled % 2 == 0
        then (let next =
              if median_index filled == 0
              then median_index filled + 1
              else median_index filled - 1 in
            elim (get_elem? sb next) [
              | none ↦ none
              | some k ↦ some (real.mul (real.add m k) (real.div (real.of_nat 1) (real.of_nat 2)))
            ])
        else some m
  ]

  -- What has come since the last report.
  unfoldable pub count_pings : Collector R → PingStat R → PingStat R
  count_pings c ps =
      let received = sub_size c.received ps.state_received in
      let lost = sub_size c.sent ps.state_sent in
      record {
        t_min = real.neg_one;
        t_med = real.neg_one;
        t_p99 = real.neg_one;
        t_mean = real.neg_one;
        received = received;
        lost = lost - min received lost;
        state_sent = c.sent;
        state_received = c.received;
      }

  unfoldable pub update_ping_stat : Collector R → PingStat R → Option (PingStat R)
  update_ping_stat c ps =
      let counted = count_pings c ps in
      let sb = sort (take c.filled c.values) in
      if c.filled == 0 then some counted else elim (median c.filled sb) [
        | none ↦ none
        | some med ↦ elim (get_elem? sb 0) [
          | none ↦ none
          | some least ↦ elim (get_elem? sb (p99_index c.filled)) [
            | none ↦ none
            | some p99 ↦ some (record counted {
              t_min = least;
              t_med = med;
              t_p99 = p99;
              t_mean = real.div c.sum (real.of_nat c.filled);
            })
          ]
        ]
      ]
