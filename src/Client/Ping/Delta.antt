-- ===== src/Client/Ping/Delta.antt =====
-- What the reports on packets add up to.
use mathlib.Core.Path.{subst}
use libov.Prelude.{
  ℕ, ◌+◌, ◌^◌, ◌<◌, ◌≤◌, ◌≡◌, ◌∙◌, refl, sym, ap, false, Option, none, some, List, [], ◌∷◌, ltb,
  length, add_size, sub_size, arith,
}
use libov.Real.{RealOps}
use libov.Sorter.{Stat}
use libov.PingStat.{plus_stat, minus_stat, update_ping_stat}
use libov.PingStat.Report.{Finds, go_on, update_ping_stat-IsSome}
use libov.Client.Ping.{Collectors, ClientStats, count_packages, update_client_stats}

abbrev pub total : Stat → List Stat → Stat
total s [] = s
total s (p ∷ ps) = total (plus_stat s p) ps

-- No count goes down or exceeds a `size_t`, and at most 2^30 packets are lost in between.
pub record Grows (a b : Stat) : Type 0 where
  pub received_le : a.received ≤ b.received
  pub received_lt : b.received < 2 ^ 64
  pub lost_le : a.lost ≤ b.lost
  pub lost_lt : b.lost < 2 ^ 64
  pub lost_few : b.lost ≤ a.lost + 2 ^ 30
  pub in_le : a.seqerr_in ≤ b.seqerr_in
  pub in_lt : b.seqerr_in < 2 ^ 64
  pub out_le : a.seqerr_out ≤ b.seqerr_out
  pub out_lt : b.seqerr_out < 2 ^ 64

add_size-sub_size : (a b : ℕ) → a ≤ b → b < 2 ^ 64 → add_size a (sub_size b a) ≡ b
add_size-sub_size a b h k = omega arith

few : (a b : ℕ) → a ≤ b → b < 2 ^ 64 → b ≤ a + 2 ^ 30 → ltb (2 ^ 30) (sub_size b a) ≡ false
few a b h k f = ground arith

count_packages-Grows : (a b : Stat) → Grows a b → plus_stat a (count_packages b a) ≡ b
unfolding count_packages plus_stat minus_stat
count_packages-Grows a b g =
    rw
      (
        few a.lost b.lost g.lost_le g.lost_lt g.lost_few,
        add_size-sub_size a.received b.received g.received_le g.received_lt,
        add_size-sub_size a.lost b.lost g.lost_le g.lost_lt,
        add_size-sub_size a.seqerr_in b.seqerr_in g.in_le g.in_lt,
        add_size-sub_size a.seqerr_out b.seqerr_out g.out_le g.out_lt,
      )
      refl

-- No collector holds more values than it has room for.
pub record HaveRoom {R : Type 0} (cid : ℕ) (cs : Collectors R) : Type 0 where
  pub p2p_room : (cs.p2p cid).filled ≤ length (cs.p2p cid).values
  pub srv_room : (cs.srv cid).filled ≤ length (cs.srv cid).values
  pub loc_room : (cs.loc cid).filled ≤ length (cs.loc cid).values

-- What `update_client_stats` meets: the count of the sorter, and the collectors.
abbrev pub Moment : Type 0 → Type 0
Moment R = Stat × Collectors R

abbrev pub last : {R : Type 0} → Stat → List (Moment R) → Stat
last s [] = s
last s ((now, cs) ∷ rest) = last now rest

abbrev pub AllGrow : {R : Type 0} → ℕ → Stat → List (Moment R) → Type 0
AllGrow cid s [] = Unit {0}
AllGrow cid s ((now, cs) ∷ rest) = Grows s now × HaveRoom cid cs × AllGrow cid now rest

module _ {R : Type 0} (real : RealOps R) (cid : ℕ) where
  -- The packets that are reported by one call after the other.
  abbrev pub report_all : List (Moment R) → ClientStats R → Option (List Stat)
  report_all [] st = some []
  report_all ((now, cs) ∷ rest) st = elim (update_client_stats real now cs cid st) [
    | none ↦ none
    | some st' ↦ elim (report_all rest st') [ none ↦ none | some ps ↦ some (st'.packages ∷ ps) ]
  ]

  -- The report is that of the difference, and the count is kept for the next one.
  abbrev Counts : Stat → Stat → ClientStats R → Type 0
  Counts before now st = (st.packages ≡ count_packages now before) × (st.state_packages ≡ now)

  update_client_stats-Counts :
      (now : Stat) (cs : Collectors R) (st : ClientStats R)
      → HaveRoom cid cs
      → Finds (Counts st.state_packages now) (update_client_stats real now cs cid st)
  unfolding update_client_stats
  update_client_stats-Counts now cs st h =
      let Q = Counts st.state_packages now in
      let (p2p, e1) = update_ping_stat-IsSome real (cs.p2p cid) st.ping_p2p h.p2p_room in
      let (srv, e2) = update_ping_stat-IsSome real (cs.srv cid) st.ping_srv h.srv_room in
      let (loc, e3) = update_ping_stat-IsSome real (cs.loc cid) st.ping_loc h.loc_room in
      go_on Q (update_ping_stat real (cs.p2p cid) st.ping_p2p) (λ x. _) p2p e1
        (go_on Q (update_ping_stat real (cs.srv cid) st.ping_srv) (λ x. _) srv e2
          (go_on Q (update_ping_stat real (cs.loc cid) st.ping_loc) (λ x. _) loc e3
            (_, (refl, (refl, refl)))))

  -- While the counts of the sorter do not go down, do not exceed a `size_t`, and grow by at most 2^30
  -- lost packets between two calls of `update_client_stats`, and no collector holds more values than
  -- it has room for: each call reports, and the packets reported by one call after the other add up
  -- to what was counted since the first state.
  pub report_all-total :
      (ms : List (Moment R)) (st : ClientStats R)
      → AllGrow cid st.state_packages ms
      → (ps : List Stat) × (report_all ms st ≡ some ps)
        × (total st.state_packages ps ≡ last st.state_packages ms)
  report_all-total [] st g = ([], refl, refl)
  report_all-total ((now, cs) ∷ rest) st (grows, room, more) =
      let before = st.state_packages in
      let Q : List Stat → Type 0 = λ ps. total before ps ≡ last now rest in
      let (st', (e, (report_is, kept))) = update_client_stats-Counts now cs st room in
      let (ps, e', sum) =
        report_all-total rest st' (subst (λ s. AllGrow cid s rest) (sym kept) more) in
      let first : plus_stat before st'.packages ≡ now =
        ap (plus_stat before) report_is ∙ count_packages-Grows before now grows in
      let found =
        go_on Q (update_client_stats real now cs cid st) (λ x. _) st' e
          (go_on Q (report_all rest st') (λ x. _) ps e'
            (
              st'.packages ∷ ps,
              (refl, ap (λ s. total s ps) first ∙ subst (λ s. total s ps ≡ last s rest) kept sum),
            )) in
      (found.0, found.1.0, found.1.1)
