-- ===== src/CallerList/Laws.antt =====
-- The invariant of the endpoint list: as many entries as there can be devices, and no timeout above
-- the one that an activity sets.
use libov.Prelude.{
  ℕ, zero, suc, ◌+◌, ◌≤◌, ◌≡◌, ◌∙◌, refl, ap, Bool, true, false, List, [], ◌∷◌, ltb, ◌==◌,
  if◌then◌else◌, arith, length, length-replicate, replicate, take,
}
use libov.Protocol.{max_stage_id, stage_id_server}
use libov.Message.{Bytes}
use libov.Real.{RealOps}
use libov.CallerList.{
  EpDesc, EndpointList, Event, callerlist_timeout, modify, new_ep_desc, new_endpoint_list,
  register_ep, cid_register, setlocalip_ep, cid_setlocalip, setpingtime_ep, cid_setpingtime,
  set_pubkey_ep, cid_set_pubkey, set_hiresping, check_ep, log_ep, for_each, checkstatus,
}

abbrev pub All {ℓ κ} : {A : Type ℓ} → (A → Type κ) → List A → Type κ
All P [] = Unit
All P (x ∷ xs) = P x × All P xs

length-modify {ℓ} :
    {A : Type ℓ} (i : ℕ) (f : A → A) (xs : List A) → length (modify i f xs) ≡ length xs
length-modify i f [] = refl
length-modify zero f (x ∷ xs) = refl
length-modify (suc i) f (x ∷ xs) = ap suc (length-modify i f xs)

All-modify {ℓ κ} :
    {A : Type ℓ} (P : A → Type κ) (i : ℕ) (f : A → A) (xs : List A)
    → ((x : A) → P x → P (f x))
    → All P xs
    → All P (modify i f xs)
All-modify P i f [] h a = a
All-modify P zero f (x ∷ xs) h a = (h x a.0, a.1)
All-modify P (suc i) f (x ∷ xs) h a = (a.0, All-modify P i f xs h a.1)

All-replicate {ℓ κ} : {A : Type ℓ} (P : A → Type κ) (n : ℕ) (x : A) → P x → All P (replicate n x)
All-replicate P zero x h = tt
All-replicate P (suc n) x h = (h, All-replicate P n x h)

-- The calls that change the list, and a round of the status thread.
pub data Call (R : Type 0) : Type 0 where
  registers : Bool → ℕ → Bytes → ℕ → Bytes → Call R
  sets_localip : ℕ → Bytes → Call R
  sets_pingtime : Bool → ℕ → R → Call R
  sets_pubkey : ℕ → ℕ → Bytes → ℕ → Call R
  sets_hiresping : Bool → Call R
  checks : Bytes → ℕ → Call R

module _ {R : Type 0} (real : RealOps R) where
  abbrev pub InTime : EpDesc R → Type 0
  InTime d = d.timeout ≤ callerlist_timeout

  pub record IsWf (l : EndpointList R) : Type 0 where
    pub sized : length l.endpoints ≡ max_stage_id
    pub in_time : All InTime l.endpoints

  abbrev pub step : Call R → EndpointList R → EndpointList R
  step (registers free cid bytes mode rver) l = cid_register real free cid bytes mode rver l
  step (sets_localip cid bytes) l = cid_setlocalip real cid bytes l
  step (sets_pingtime free cid t) l = cid_setpingtime real free cid t l
  step (sets_pubkey keybytes cid bytes len) l = cid_set_pubkey real keybytes cid bytes len l
  step (sets_hiresping hr) l = set_hiresping real hr l
  step (checks garbage cnt) l = (checkstatus real garbage cnt l).2

  abbrev pub steps : List (Call R) → EndpointList R → EndpointList R
  steps [] l = l
  steps (c ∷ cs) l = steps cs (step c l)

  new_endpoint_list-IsWf : (garbage : Bytes) → IsWf (new_endpoint_list real garbage)
  unfolding new_endpoint_list new_ep_desc
  new_endpoint_list-IsWf garbage = record {
    sized = length-replicate max_stage_id (new_ep_desc real garbage);
    in_time = All-replicate InTime max_stage_id (new_ep_desc real garbage) (omega arith);
  }

  modify-IsWf :
      (cid : ℕ) (f : EpDesc R → EpDesc R) (l : EndpointList R)
      → ((d : EpDesc R) → InTime d → InTime (f d))
      → IsWf l
      → IsWf (record l { endpoints = modify cid f l.endpoints })
  modify-IsWf cid f l h w = record {
    sized = length-modify cid f l.endpoints ∙ w.sized;
    in_time = All-modify InTime cid f l.endpoints h w.in_time;
  }

  if_IsWf : (b : Bool) (x y : EndpointList R) → IsWf x → IsWf y → IsWf (if b then x else y)
  if_IsWf true x y p q = p
  if_IsWf false x y p q = q

  check_ep-InTime :
      (garbage : Bytes) (cid : ℕ) (d : EpDesc R) → InTime d → InTime (check_ep real garbage cid d).1
  unfolding check_ep
  check_ep-InTime garbage cid d h = ground arith

  log_ep-InTime : (cid : ℕ) (d : EpDesc R) → InTime d → InTime (log_ep real cid d).1
  unfolding log_ep
  log_ep-InTime cid d h = ground arith

  setpingtime_ep-InTime :
      (free : Bool) (t : R) (d : EpDesc R) → InTime d → InTime (setpingtime_ep real free t d)
  unfolding setpingtime_ep
  setpingtime_ep-InTime free t d h = ground arith

  module _ (f : ℕ → EpDesc R → List (Event R) × EpDesc R)
      (keeps : (i : ℕ) (d : EpDesc R) → InTime d → InTime (f i d).1) where
    length-for_each : (i : ℕ) (ds : List (EpDesc R)) → length (for_each real f i ds).1 ≡ length ds
    length-for_each i [] = refl
    length-for_each i (d ∷ ds) = ap suc (length-for_each (i + 1) ds)

    for_each-InTime :
        (i : ℕ) (ds : List (EpDesc R)) → All InTime ds → All InTime (for_each real f i ds).1
    for_each-InTime i [] a = a
    for_each-InTime i (d ∷ ds) a = (keeps i d a.0, for_each-InTime (i + 1) ds a.1)

  if_checks :
      (b : Bool) (cnt cnt' : ℕ) (out out' : List (Event R)) (x y : EndpointList R)
      → IsWf x
      → IsWf y
      → IsWf
          (if b
            then (let t : List (Event R) × ℕ × EndpointList R = (out, cnt, x) in t)
            else (out', cnt', y)).2
  if_checks true cnt cnt' out out' x y p q = p
  if_checks false cnt cnt' out out' x y p q = q

  checkstatus-IsWf :
      (garbage : Bytes) (cnt : ℕ) (l : EndpointList R)
      → IsWf l
      → IsWf (checkstatus real garbage cnt l).2
  unfolding checkstatus
  checkstatus-IsWf garbage cnt l w =
      let check = check_ep-InTime garbage in
      let first : IsWf
          (record l { endpoints = (for_each real (check_ep real garbage) 0 l.endpoints).1 }) =
        record {
          sized = length-for_each (check_ep real garbage) check 0 l.endpoints ∙ w.sized;
          in_time = for_each-InTime (check_ep real garbage) check 0 l.endpoints w.in_time;
        } in
      if_checks (cnt == 0) _ _ _ _ _ _
        (record {
          sized = length-for_each (log_ep real) log_ep-InTime 0 _ ∙ first.sized;
          in_time = for_each-InTime (log_ep real) log_ep-InTime 0 _ first.in_time;
        })
        first

  step-IsWf : (c : Call R) (l : EndpointList R) → IsWf l → IsWf (step c l)
  unfolding cid_register cid_setlocalip cid_setpingtime cid_set_pubkey set_hiresping register_ep
      setlocalip_ep set_pubkey_ep
  step-IsWf (registers free cid bytes mode rver) l w =
      if_IsWf (ltb cid max_stage_id) _ l
        (if_IsWf free _ l
          (modify-IsWf cid (register_ep real bytes mode rver) l (λ d h. omega arith) w) w)
        w
  step-IsWf (sets_localip cid bytes) l w =
      if_IsWf (ltb cid max_stage_id) _ l (modify-IsWf cid (setlocalip_ep real bytes) l (λ d h. h) w)
        w
  step-IsWf (sets_pingtime free cid t) l w =
      if_IsWf (ltb cid max_stage_id) _ l
        (modify-IsWf cid (setpingtime_ep real free t) l (setpingtime_ep-InTime free t) w) w
  step-IsWf (sets_pubkey keybytes cid bytes len) l w =
      if_IsWf (len == keybytes) _ l
        (if_IsWf (ltb cid max_stage_id) _ _
          (modify-IsWf cid (set_pubkey_ep real (take len bytes)) l (λ d h. h) w)
          (if_IsWf (cid == stage_id_server) _ l (record { sized = w.sized; in_time = w.in_time })
            w))
        w
  step-IsWf (sets_hiresping hr) l w = record { sized = w.sized; in_time = w.in_time }
  step-IsWf (checks garbage cnt) l w = checkstatus-IsWf garbage cnt l w

  steps-IsWf : (cs : List (Call R)) (l : EndpointList R) → IsWf l → IsWf (steps cs l)
  steps-IsWf [] l w = w
  steps-IsWf (c ∷ cs) l w = steps-IsWf cs (step c l) (step-IsWf c l w)

  -- From the construction on, after any sequence of calls and rounds of the status thread, the list
  -- has an entry for each possible device and no timeout exceeds the one that an activity sets.
  pub steps-new-IsWf :
      (garbage : Bytes) (cs : List (Call R)) → IsWf (steps cs (new_endpoint_list real garbage))
  steps-new-IsWf garbage cs = steps-IsWf cs _ (new_endpoint_list-IsWf garbage)
