-- ===== src/Client/Process/Local.antt =====
-- What `process_msg` hands to the local machine.
use libov.Prelude.{
  ℕ, ◌+◌, ◌%◌, ◌^◌, ◌<◌, ◌≡◌, ◌≢◌, refl, Bool, true, false, not, ◌&&◌, Bool-cases, inl, inr, List,
  [], ◌∷◌, ◌++◌, ltb, ◌==◌, if◌then◌else◌, arith, ltb→lt,
}
use libov.Protocol.Port
use libov.Endpoint.{Endpoint, is_same_network}
use libov.Real.{RealOps}
use libov.Message.{Bytes}
use libov.Message.Buffer.{MsgBuf}
use libov.Message.Crypt.{SealedBox}
use libov.CallerList.Laws.{All}
use libov.Socket.{Doubles}
use libov.Client.{Client, to_endpoint}
use libov.Client.Process.{
  Action, local, remote, pinged, measured, Handled, process_ping_msg, process_pong_msg, open_msg,
  send_local, send_all, send_proxies, process_data_msg, process_special_msg, process_msg,
}

module _ {R : Type 0} (P : Action R → Type 0) where
  pub All-append : (xs ys : List (Action R)) → All P xs → All P ys → All P (xs ++ ys)
  All-append [] ys a b = b
  All-append (x ∷ xs) ys a b = (a.0, All-append xs ys a.1 b)

  if_All : (b : Bool) (x y : Handled R) → All P x.2 → All P y.2 → All P (if b then x else y).2
  if_All true x y p q = p
  if_All false x y p q = q

  pub if_actions :
      (b : Bool) (xs ys : List (Action R))
      → (b ≡ true → All P xs)
      → (b ≡ false → All P ys)
      → All P (if b then xs else ys)
  if_actions true xs ys p q = p refl
  if_actions false xs ys p q = q refl

  module _ (msg : Bytes) (len : ℕ)
      (on_remote : (ep : Endpoint) → P (remote (to_endpoint msg len ep))) where
    pub send_proxies-All :
        (b : MsgBuf) (clients : List (ℕ × Endpoint)) → All P (send_proxies b msg len clients).0
    send_proxies-All b [] = tt
    send_proxies-All b ((id, ep) ∷ clients) = elim (Bool-cases (b.cid == id)) [
      | inl own ↦ rw own (send_proxies-All b clients)
      | inr other ↦ rw other (on_remote _, send_proxies-All b clients)
    ]

pub other_device :
    (cid own p : ℕ)
    → Port.maxspecialport < p
    → (cid == own && (not (p == Port.listcid) && not (p == Port.pubkey))) ≡ false
    → cid ≢ own
other_device cid own p h e = ground arith

-- A message is handed to the local machine only if it came with a data port from another device, and
-- not to the port that the client itself listens on.
abbrev pub IsSafe : {R : Type 0} → Client R → MsgBuf → Action R → Type 0
IsSafe c b (local m n port) =
    (Port.maxspecialport < b.destport) × (b.cid ≢ c.callerid) × (port ≢ c.recport)
IsSafe c b _ = Unit {0}

-- The port with any of the offsets is a port.
abbrev pub InRange : {R : Type 0} → Client R → MsgBuf → Type 0
InRange c b = (b.destport + c.portoffset < 2 ^ 16) × All (λ x. b.destport + x < 2 ^ 16) c.xdest

module _ (box : SealedBox) {R : Type 0} (real : RealOps R) (double : Doubles R) (free : Bool)
    (keybytes : ℕ) (now : R) where
  module _ (P : Action R → Type 0)
      (on_remote : (m : Bytes) (n : ℕ) (ep : Endpoint) → P (remote (to_endpoint m n ep)))
      (on_ping : (k p : ℕ) (t : R) (ep : Endpoint) → P (pinged k p t ep))
      (on_measure : (p k : ℕ) (t : R) → P (measured p k t)) where
    ping-All : (c : Client R) (b : MsgBuf) → All P (process_ping_msg c b).2
    unfolding process_ping_msg
    ping-All c b = (on_remote _ _ _, tt)

    pong-All : (b : MsgBuf) → All P (process_pong_msg real double now b)
    unfolding process_pong_msg
    pong-All b = answer _ _
      where
        answer :
            (q : Bool) (t : R)
            → All P (
                if q
                then pinged b.cid b.destport t b.sender ∷ measured b.destport b.cid t ∷ []
                else [])
        answer true t = (on_ping _ _ _ _, (on_measure _ _ _, tt))
        answer false t = tt

    special-All :
        (c : Client R) (b : MsgBuf)
        → All P (process_special_msg box real double free keybytes now c b).2
    unfolding process_special_msg
    special-All c b = if_All P (b.destport == Port.ping) _ _ (ping-All c b) (
        if_All P (b.destport == Port.ping_srv) _ _ (ping-All c b) (
          if_All P (b.destport == Port.ping_local) _ _ (ping-All c b) (
            if_All P (b.destport == Port.pong) _ _ (pong-All b) (
              if_All P (b.destport == Port.pong_srv) _ _ (pong-All b) (
                if_All P (b.destport == Port.pong_local) _ _ (pong-All b) (
                  if_All P (b.destport == Port.setlocalip) _ _ tt (
                    if_All P (b.destport == Port.listcid) _ _ tt
                      (if_All P (b.destport == Port.pubkey) _ _ tt tt))))))))

  module _ (c : Client R) (b : MsgBuf) (high : Port.maxspecialport < b.destport)
      (other : b.cid ≢ c.callerid) where
    send_local-IsSafe :
        (m : Bytes) (n x : ℕ) → b.destport + x < 2 ^ 16 → All (IsSafe c b) (send_local c b m n x)
    unfolding send_local
    send_local-IsSafe m n x h =
        if_actions (IsSafe c b) (b.destport + x == c.recport) [] _ (λ e. tt)
          (λ e. ((high, other, not_own x h e), tt))
      where
        not_own :
            (x : ℕ)
            → b.destport + x < 2 ^ 16
            → (b.destport + x == c.recport) ≡ false
            → (b.destport + x) % 2 ^ 16 ≢ c.recport
        not_own x h e = ground arith

    send_all-IsSafe :
        (m : Bytes) (n : ℕ) (xs : List ℕ)
        → All (λ x. b.destport + x < 2 ^ 16) xs
        → All (IsSafe c b) (send_all c b m n xs)
    send_all-IsSafe m n [] h = tt
    send_all-IsSafe m n (x ∷ xs) h =
        All-append (IsSafe c b) (send_local c b m n x) (send_all c b m n xs)
          (send_local-IsSafe m n x h.0) (send_all-IsSafe m n xs h.1)

    far-IsSafe :
        (s : Bool) (m : Bytes) (n : ℕ)
        → All (IsSafe c b) (if s then ([], c.proxyclients) else send_proxies b m n c.proxyclients).0
    far-IsSafe true m n = tt
    far-IsSafe false m n = send_proxies-All (IsSafe c b) m n (λ ep. tt) b c.proxyclients

    data-IsSafe : InRange c b → All (IsSafe c b) (process_data_msg box c b).2
    unfolding process_data_msg
    data-IsSafe range =
        let m = (open_msg box c b).0 in
        let n = (open_msg box c b).1 in
        All-append (IsSafe c b) (send_local c b m n c.portoffset ++ send_all c b m n c.xdest) _
          (All-append (IsSafe c b) (send_local c b m n c.portoffset) (send_all c b m n c.xdest)
            (send_local-IsSafe m n c.portoffset range.0) (send_all-IsSafe m n c.xdest range.1))
          (far-IsSafe (is_same_network b.sender c.localep) m n)

  -- Whatever message the sorter hands out, while the sum of its port and any of the offsets is a port:
  -- it is handed to the local machine only if it came with a data port from another device, and not to
  -- the port that the client itself listens on.
  pub process_msg-IsSafe :
      (c : Client R) (b : MsgBuf)
      → InRange c b
      → All (IsSafe c b) (process_msg box real double free keybytes now c b).2
  unfolding process_msg
  process_msg-IsSafe c b range =
      let b' : MsgBuf = record b { valid = false } in
      elim (Bool-cases (
        b.cid == c.callerid
        && (not (b.destport == Port.listcid) && not (b.destport == Port.pubkey)))) [
          | inl own ↦ rw own tt
          | inr pass ↦ elim (Bool-cases (ltb Port.maxspecialport b.destport)) [
            | inl high ↦
                let h = ltb→lt Port.maxspecialport b.destport high in
                rw (pass, high)
                  (data-IsSafe c b' h (other_device b.cid c.callerid b.destport h pass) range)
            | inr low ↦
                rw (pass, low)
                  (special-All (IsSafe c b) (λ m n ep. tt) (λ k p t ep. tt) (λ p k t. tt) c b')
          ]
        ]
