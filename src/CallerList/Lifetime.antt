-- ===== src/CallerList/Lifetime.antt =====
-- The life of one connection, as its owner hears of it from the status thread.
use libov.Prelude.{
  ℕ, zero, suc, ◌+◌, ◌≤◌, ◌≡◌, ◌∙◌, refl, ap, sym, Bool, true, false, List, [], ◌∷◌, ◌++◌, ◌==◌,
  if◌then◌else◌, arith, Bool-cases, inl, inr,
}
use libov.Message.{Bytes}
use libov.Real.{RealOps}
use libov.CallerList.{
  EpDesc, EndpointList, Event, new_connection, connection_lost, new_ep_desc, check_ep, log_ep,
  for_each, checkstatus, count_active, get_num_clients,
}
use libov.CallerList.Laws.{All, IsWf}

module _ {R : Type 0} (real : RealOps R) (garbage : Bytes) (cid : ℕ) where
  -- Rounds of the status thread over one entry, with nothing heard from the device.
  abbrev pub silence : ℕ → EpDesc R → List (Event R) × EpDesc R
  silence zero d = ([], d)
  silence (suc n) d =
      let (out, d') = check_ep real garbage cid d in
      let (outs, end) = silence n d' in (out ++ outs, end)

  check_known :
      (n : ℕ) (d : EpDesc R)
      → d.announced ≡ true
      → d.timeout ≡ suc n
      → check_ep real garbage cid d ≡ ([], record d { timeout = n })
  unfolding check_ep
  check_known n d a e = ground arith

  check_new :
      (n : ℕ) (d : EpDesc R)
      → d.announced ≡ false
      → d.timeout ≡ suc n
      → check_ep real garbage cid d
        ≡ (new_connection cid d ∷ [], record d { announced = true; timeout = n })
  unfolding check_ep
  check_new n d a e = ground arith

  check_over :
      (d : EpDesc R)
      → d.announced ≡ true
      → d.timeout ≡ 0
      → check_ep real garbage cid d ≡ (connection_lost cid ∷ [], new_ep_desc real garbage)
  unfolding check_ep
  check_over d a e = rw (e, a)

  silence_known :
      (n : ℕ) (d : EpDesc R)
      → d.announced ≡ true
      → d.timeout ≡ n
      → silence (suc n) d ≡ (connection_lost cid ∷ [], new_ep_desc real garbage)
  silence_known zero d a e = rw (check_over d a e)
  silence_known (suc n) d a e =
      rw (check_known n d a e, silence_known n (record d { timeout = n }) a refl)

  silence_fresh :
      (n : ℕ) (d : EpDesc R)
      → d.announced ≡ false
      → d.timeout ≡ suc n
      → silence (suc (suc n)) d
        ≡ (new_connection cid d ∷ connection_lost cid ∷ [], new_ep_desc real garbage)
  silence_fresh n d a e =
      ap (λ r. (r.0 ++ (silence (suc n) r.1).0, (silence (suc n) r.1).1)) (check_new n d a e)
      ∙ ap (λ r. (new_connection cid d ∷ r.0, r.1))
          (silence_known n (record d { announced = true; timeout = n }) refl refl)

  -- A device that is heard of and then falls silent: with a timeout of `n` rounds left, `n + 1` rounds
  -- later its owner has been told once that it is there, unless it had been told before, and then once
  -- that it is lost, and the entry is as new.
  pub silence_lem :
      (n : ℕ) (d : EpDesc R)
      → d.timeout ≡ suc n
      → silence (suc (suc n)) d ≡ (
        (if d.announced then [] else new_connection cid d ∷ []) ++ (connection_lost cid ∷ []),
        new_ep_desc real garbage,
      )
  silence_lem n d e = elim (Bool-cases d.announced) [
    | inl a ↦ silence_known (suc n) d a e ∙ ap told (sym a)
    | inr a ↦ silence_fresh n d a e ∙ ap told (sym a)
  ]
    where
      told : Bool → List (Event R) × EpDesc R
      told b = (
        (if b then [] else new_connection cid d ∷ []) ++ (connection_lost cid ∷ []),
        new_ep_desc real garbage,
      )

module _ {R : Type 0} (real : RealOps R) (garbage : Bytes) where
  -- Rounds over the whole list, with the counter of the thread.
  abbrev pub rounds : ℕ → ℕ → EndpointList R → EndpointList R
  rounds zero cnt l = l
  rounds (suc n) cnt l = let (_, cnt', l') = checkstatus real garbage cnt l in rounds n cnt' l'

  Within : ℕ → EpDesc R → Type 0
  Within n d = d.timeout ≤ n

  Gone : EpDesc R → Type 0
  Gone d = (d.timeout ≡ 0) × (d.announced ≡ false)

  check_ep-Within :
      (n i : ℕ) (d : EpDesc R) → Within (suc n) d → Within n (check_ep real garbage i d).1
  unfolding Within check_ep new_ep_desc
  check_ep-Within n i d h = ground arith

  check_ep-Gone : (i : ℕ) (d : EpDesc R) → Within 0 d → Gone (check_ep real garbage i d).1
  unfolding Within Gone check_ep new_ep_desc
  check_ep-Gone i d h = ground arith

  log_ep-Within : (n i : ℕ) (d : EpDesc R) → Within n d → Within n (log_ep real i d).1
  unfolding Within log_ep
  log_ep-Within n i d h = ground arith

  log_ep-Gone : (i : ℕ) (d : EpDesc R) → Gone d → Gone (log_ep real i d).1
  unfolding Gone log_ep
  log_ep-Gone i d h = ground arith

  for_each-All :
      (P Q : EpDesc R → Type 0) (f : ℕ → EpDesc R → List (Event R) × EpDesc R)
      → ((i : ℕ) (d : EpDesc R) → P d → Q (f i d).1)
      → (i : ℕ) (ds : List (EpDesc R)) → All P ds
      → All Q (for_each real f i ds).1
  for_each-All P Q f h i [] a = a
  for_each-All P Q f h i (d ∷ ds) a = (h i d a.0, for_each-All P Q f h (i + 1) ds a.1)

  -- What the first loop establishes and the second one keeps holds after the round.
  checkstatus-All :
      (P Q : EpDesc R → Type 0)
      → ((i : ℕ) (d : EpDesc R) → P d → Q (check_ep real garbage i d).1)
      → ((i : ℕ) (d : EpDesc R) → Q d → Q (log_ep real i d).1)
      → (cnt : ℕ) (l : EndpointList R) → All P l.endpoints
      → All Q (checkstatus real garbage cnt l).2.endpoints
  unfolding checkstatus
  checkstatus-All P Q check log cnt l a =
      let first = for_each-All P Q (check_ep real garbage) check 0 l.endpoints a in
      elim (Bool-cases (cnt == 0)) [
        | inl due ↦ rw due (for_each-All Q Q (log_ep real) log 0 _ first)
        | inr wait ↦ rw wait first
      ]

  rounds-Gone :
      (n cnt : ℕ) (l : EndpointList R)
      → All (Within n) l.endpoints
      → All Gone (rounds (suc n) cnt l).endpoints
  rounds-Gone zero cnt l a = checkstatus-All (Within 0) Gone check_ep-Gone log_ep-Gone cnt l a
  rounds-Gone (suc n) cnt l a =
      rounds-Gone n (checkstatus real garbage cnt l).1 (checkstatus real garbage cnt l).2
        (checkstatus-All (Within (suc n)) (Within n) (check_ep-Within n) (log_ep-Within n) cnt l a)

  none_active : (ds : List (EpDesc R)) → All Gone ds → count_active real ds ≡ 0
  unfolding Gone
  none_active [] a = refl
  none_active (d ∷ ds) a = rw (a.0.0, none_active ds a.1)

  -- Whatever the list holds, 121 rounds of the status thread without a sign of any device leave it
  -- with no active client and with no entry that counts as announced.
  pub rounds_silent :
      (cnt : ℕ) (l : EndpointList R)
      → IsWf real l
      → (get_num_clients real (rounds 121 cnt l) ≡ 0)
        × All (λ d. (d.timeout ≡ 0) × (d.announced ≡ false)) (rounds 121 cnt l).endpoints
  unfolding get_num_clients Within Gone
  rounds_silent cnt l w =
      let gone = rounds-Gone 120 cnt l w.in_time in
      (rw (none_active (rounds 121 cnt l).endpoints gone), gone)
