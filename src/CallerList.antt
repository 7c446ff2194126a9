-- ===== src/CallerList.antt =====
-- `ep_desc_t` and `endpoint_list_t` (src/callerlist.h, src/callerlist.cc). `try_lock` of the mutex is
-- an argument: whether it was free. One round of the status thread is a function of the list and the
-- thread's counter; its callbacks are the events that it returns.
pub mod Laws
pub mod Lifetime
mod Tests
use libov.Prelude.{
  bytes_eq, ℕ, zero, suc, ◌+◌, ◌-◌, ◌/◌, ◌<◌, ◌%◌, ◌^◌, Bool, true, false, not, List, [], ◌∷◌, ◌++◌,
  ltb, ◌==◌, if◌then◌else◌, replicate, take, max,
}
use libov.Protocol.{max_stage_id, stage_id_server}
use libov.Protocol.Mode
use libov.Endpoint.{Endpoint, zero_endpoint, load_endpoint, af_inet}
use libov.Message.{Bytes}
use libov.Real.{RealOps, max_real, min_real}

abbrev pub callerlist_timeout : ℕ
callerlist_timeout = 120

pub record EpDesc (R : Type 0) : Type 0 where
  pub ep : Endpoint
  pub localep : Endpoint
  pub timeout : ℕ
  pub announced : Bool
  pub mode : ℕ
  pub pingt_min : R
  pub pingt_max : R
  pub pingt_sum : R
  pub pingt_n : ℕ
  pub num_received : ℕ
  pub num_lost : ℕ
  pub version : Bytes
  pub has_pubkey : Bool
  pub pubkey : Bytes

pub record EndpointList (R : Type 0) : Type 0 where
  pub endpoints : List (EpDesc R)
  pub pingperiodms : ℕ
  pub srv_has_pubkey : Bool
  pub srv_pubkey : Bytes

-- What the list tells its owner.
pub data Event (R : Type 0) : Type 0 where
  new_connection : ℕ → EpDesc R → Event R
  connection_lost : ℕ → Event R
  latency : ℕ → R → R → R → ℕ → ℕ → Event R

-- `endpoints[i]` updated; an index out of range is guarded by every caller.
abbrev pub modify {ℓ} : {A : Type ℓ} → ℕ → (A → A) → List A → List A
modify i f [] = []
modify zero f (x ∷ xs) = f x ∷ xs
modify (suc i) f (x ∷ xs) = x ∷ modify i f xs

module _ {R : Type 0} (real : RealOps R) where
  -- The constructor; it leaves the key as it finds it in memory.
  unfoldable pub new_ep_desc : Bytes → EpDesc R
  new_ep_desc garbage = record {
    ep = zero_endpoint;
    localep = zero_endpoint;
    timeout = 0;
    announced = false;
    mode = Mode.peer2peer;
    pingt_min = real.of_nat 10000;
    pingt_max = real.of_nat 0;
    pingt_sum = real.of_nat 0;
    pingt_n = 0;
    num_received = 0;
    num_lost = 0;
    version = [];
    has_pubkey = false;
    pubkey = garbage;
  }

  unfoldable pub new_endpoint_list : Bytes → EndpointList R
  new_endpoint_list garbage = record {
    endpoints = replicate max_stage_id (new_ep_desc garbage);
    pingperiodms = 2000;
    srv_has_pubkey = false;
    srv_pubkey = garbage;
  }

  abbrev pub modify_endpoint : ℕ → (EpDesc R → EpDesc R) → EndpointList R → EndpointList R
  modify_endpoint cid f l = record l { endpoints = modify cid f l.endpoints }

  unfoldable pub register_ep : Bytes → ℕ → Bytes → EpDesc R → EpDesc R
  register_ep bytes mode rver d = record d {
    ep = load_endpoint bytes;
    announced = if mode == d.mode then d.announced else false;
    mode = mode;
    timeout = callerlist_timeout;
    version = rver;
  }

  unfoldable pub cid_register : Bool → ℕ → Bytes → ℕ → Bytes → EndpointList R → EndpointList R
  cid_register free cid bytes mode rver l =
      if ltb cid max_stage_id
      then (if free then modify_endpoint cid (register_ep bytes mode rver) l else l)
      else l

  unfoldable pub setlocalip_ep : Bytes → EpDesc R → EpDesc R
  setlocalip_ep bytes d = record d {
    localep = (let e = load_endpoint bytes in record e { sin_family = af_inet });
  }

  unfoldable pub cid_setlocalip : ℕ → Bytes → EndpointList R → EndpointList R
  cid_setlocalip cid bytes l =
      if ltb cid max_stage_id then modify_endpoint cid (setlocalip_ep bytes) l else l

  unfoldable pub setpingtime_ep : Bool → R → EpDesc R → EpDesc R
  setpingtime_ep free pingtime d =
      let alive = record d { timeout = callerlist_timeout } in
      if real.lt (real.of_nat 0) pingtime
      then (if free
          then record alive {
            pingt_n = (d.pingt_n + 1) % 2 ^ 32;
            pingt_sum = real.add d.pingt_sum pingtime;
            pingt_max = max_real real pingtime d.pingt_max;
            pingt_min = min_real real pingtime d.pingt_min;
          }
          else alive)
      else alive

  unfoldable pub cid_setpingtime : Bool → ℕ → R → EndpointList R → EndpointList R
  cid_setpingtime free cid pingtime l =
      if ltb cid max_stage_id then modify_endpoint cid (setpingtime_ep free pingtime) l else l

  -- `memcmp` and `memcpy` of a key of `len` bytes.
  abbrev pub renew_key : Bytes → Bytes → Bytes
  renew_key bytes key = if bytes_eq bytes key then key else bytes

  unfoldable pub set_pubkey_ep : Bytes → EpDesc R → EpDesc R
  set_pubkey_ep bytes d = record d { pubkey = renew_key bytes d.pubkey; has_pubkey = true }

  -- The first argument is crypto_box_PUBLICKEYBYTES.
  unfoldable pub cid_set_pubkey : ℕ → ℕ → Bytes → ℕ → EndpointList R → EndpointList R
  cid_set_pubkey keybytes cid bytes len l =
      if len == keybytes
      then (if ltb cid max_stage_id
          then modify_endpoint cid (set_pubkey_ep (take len bytes)) l
          else if cid == stage_id_server
          then record l {
            srv_pubkey = renew_key (take len bytes) l.srv_pubkey;
            srv_has_pubkey = true;
          }
          else l)
      else l

  unfoldable pub set_hiresping : Bool → EndpointList R → EndpointList R
  set_hiresping hr l = record l { pingperiodms = if hr then 50 else 500 }

  abbrev pub count_active : List (EpDesc R) → ℕ
  count_active [] = 0
  count_active (d ∷ ds) = (if ltb 0 d.timeout then 1 else 0) + count_active ds

  unfoldable pub get_num_clients : EndpointList R → ℕ
  get_num_clients l = count_active l.endpoints % 2 ^ 32

  -- The body of the first loop of `checkstatus`, at index `cid`.
  unfoldable pub check_ep : Bytes → ℕ → EpDesc R → List (Event R) × EpDesc R
  unfolding new_ep_desc
  check_ep garbage cid d =
      if ltb 0 d.timeout
      then (if d.announced
          then ([], record d { timeout = d.timeout - 1 })
          else (new_connection cid d ∷ [], record d { announced = true; timeout = d.timeout - 1 }))
      else if d.announced
      then (connection_lost cid ∷ [], new_ep_desc garbage)
      else ([], d)

  -- The body of the second loop.
  unfoldable pub log_ep : ℕ → EpDesc R → List (Event R) × EpDesc R
  log_ep cid d =
      if ltb 0 d.timeout
      then (
        latency cid d.pingt_min (real.div d.pingt_sum (real.of_nat (max 1 d.pingt_n))) d.pingt_max
              d.num_received d.num_lost
            ∷ [],
        record d {
          pingt_n = 0;
          pingt_min = real.of_nat 1000;
          pingt_max = real.of_nat 0;
          pingt_sum = real.of_nat 0;
          num_received = 0;
          num_lost = 0;
        },
      )
      else ([], d)

  -- A loop over all indices, from `i` on.
  abbrev pub for_each :
      (ℕ → EpDesc R → List (Event R) × EpDesc R)
      → ℕ
      → List (EpDesc R)
      → List (Event R) × List (EpDesc R)
  for_each f i [] = ([], [])
  for_each f i (d ∷ ds) =
      let (out, d') = f i d in let (outs, ds') = for_each f (i + 1) ds in (out ++ outs, d' ∷ ds')

  unfoldable pub initial_statlogcnt : EndpointList R → ℕ
  initial_statlogcnt l = 60000 / l.pingperiodms

  -- One round of `checkstatus`, after its sleep. The counter is a uint32_t.
  unfoldable pub checkstatus : Bytes → ℕ → EndpointList R → List (Event R) × ℕ × EndpointList R
  checkstatus garbage statlogcnt l =
      let (out, eps) = for_each (check_ep garbage) 0 l.endpoints in
      if statlogcnt == 0
      then (let (logs, eps') = for_each log_ep 0 eps in
          (
            out ++ logs,
            (60000 / l.pingperiodms + 2 ^ 32 - 1) % 2 ^ 32,
            record l { endpoints = eps' },
          ))
      else (out, statlogcnt - 1, record l { endpoints = eps })
