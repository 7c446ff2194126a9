-- ===== src/Client/Route/Secure.antt =====
-- What `send_encrypt_all` says of the calls of a round.
use mathlib.Core.Path.{subst}
use mathlib.Core.Bool.{false≢true}
use libov.Prelude.{
  ◌^◌, ◌%◌, ◌-◌, ℕ, ◌+◌, ◌≤◌, ◌≡◌, ◌∙◌, refl, ap, Bool, true, false, not, ◌&&◌, Option, none, some,
  List, [], ◌∷◌, ◌++◌, ltb, ◌==◌, if◌then◌else◌, arith, length,
}
use libov.Protocol.{buf_size}
use libov.Protocol.Mode
use libov.Message.{Bytes}
use libov.Message.Crypt.{SealedBox, encryptmsg}
use libov.CallerList.{EpDesc}
use libov.CallerList.Laws.{All}
use libov.Socket.{Socket, packmsg}
use libov.Client.{Client, is_listed, Request, to_endpoint, to_port, wants_encryption, address_of}
use libov.Client.Route.{
  Round, prepare, add_call, is_target, route_ep, route_all, to_peers, to_server, recsrv,
}

All-snoc {ℓ κ} :
    {A : Type ℓ} (P : A → Type κ) (xs : List A) (x : A) → All P xs → P x → All P (xs ++ (x ∷ []))
All-snoc P [] x a p = (p, tt)
All-snoc P (y ∷ ys) x a p = (a.0, All-snoc P ys x a.1 p)

-- The bytes are what `encryptmsg` made of the packed message, with some key.
abbrev pub SealedBytes : SealedBox → (ℕ → ℕ) → Bytes → ℕ → Bytes → ℕ → Type 0
SealedBytes box rand msg len buf n =
    (k : ℕ) × (cm : Bytes) × (pk : Bytes) × (encryptmsg box (rand k) cm buf_size msg len pk
      ≡ some (n, buf))

abbrev pub IsSealed : SealedBox → (ℕ → ℕ) → Bytes → ℕ → Request → Type 0
IsSealed box rand msg len (to_endpoint buf n ep) = SealedBytes box rand msg len buf n
IsSealed box rand msg len (to_port buf n port) = SealedBytes box rand msg len buf n

module _ (box : SealedBox) {R : Type 0} (rand : ℕ → ℕ) (c : Client R) (msg : Bytes) (len : ℕ) where
  -- As long as the counters agree, all that was asked for is encrypted.
  record Inv (r : Round) : Type 0 where
    counts : r.peers_encrypted ≤ r.peers_total
    all_sealed : r.peers_encrypted ≡ r.peers_total → All (IsSealed box rand msg len) r.out

  -- What `prepare` yields after a peer was counted.
  record Prepared (r : Round) (buf : Bytes) (n : ℕ) (r' : Round) : Type 0 where
    calls : r'.out ≡ r.out
    counts' : r'.peers_encrypted ≤ r'.peers_total
    sealed :
        r'.peers_encrypted ≡ r'.peers_total
        → (r.peers_encrypted ≡ r.peers_total) × SealedBytes box rand msg len buf n

  -- A fault has nothing to answer for.
  abbrev Prepares : Round → Option (Bytes × ℕ × Round) → Type 0
  Prepares r none = Unit {0}
  Prepares r (some (buf, n, r')) = Prepared r buf n r'

  abbrev Keeps : Option Round → Type 0
  Keeps none = Unit {0}
  Keeps (some r) = Inv r

  prepare-Prepares :
      (k : ℕ) (b : Bool) (pk : Bytes) (r : Round)
      → r.peers_encrypted ≤ r.peers_total
      → Prepares r
          (prepare box rand c msg len k b pk (record r { peers_total = r.peers_total + 1 }))
  unfolding prepare
  prepare-Prepares k false pk r h = record {
    calls = refl;
    counts' = omega arith;
    sealed = λ e. absurd (omega arith);
  }
  prepare-Prepares k true pk r h = go (encryptmsg box (rand k) r.cmsg buf_size msg len pk) refl
    where
      go :
          (o : Option (ℕ × Bytes))
          → encryptmsg box (rand k) r.cmsg buf_size msg len pk ≡ o
          → Prepares r (elim o [
            | none ↦ none
            | some (n, cmsg) ↦ some (
              cmsg,
              n,
              record r {
                peers_total = r.peers_total + 1;
                cmsg = cmsg;
                peers_encrypted = r.peers_encrypted + 1;
              },
            )
          ])
      go none e = tt
      go (some (n, cm)) e = record {
        calls = refl;
        counts' = omega arith;
        sealed = λ q. (omega arith, (k, r.cmsg, pk, e));
      }

  -- A call with what was prepared.
  called :
      (r : Round) (o : Option (Bytes × ℕ × Round)) (b : Bool) (call : Bytes → ℕ → Request)
      → ((buf : Bytes) (n : ℕ)
          → SealedBytes box rand msg len buf n
          → IsSealed box rand msg len (call buf n))
      → Inv r
      → Prepares r o
      → Keeps (elim o [
        | none ↦ none
        | some (buf, n, r') ↦ some (add_call box rand c msg len b (call buf n) r')
      ])
  called r none b call seals i p = tt
  called r (some (buf, n, r')) false call seals i p = record {
    counts = p.counts';
    all_sealed = λ e. rw p.calls (i.all_sealed (p.sealed e).0);
  }
  called r (some (buf, n, r')) true call seals i p = record {
    counts = p.counts';
    all_sealed = λ e. rw p.calls (
        All-snoc (IsSealed box rand msg len) r.out (call buf n) (i.all_sealed (p.sealed e).0)
          (seals buf n (p.sealed e).1));
  }

  if_Keeps : (b : Bool) (x y : Option Round) → Keeps x → Keeps y → Keeps (if b then x else y)
  if_Keeps true x y p q = p
  if_Keeps false x y p q = q

  route_ep-Keeps :
      (k : ℕ) (d : EpDesc R) (r : Round) → Inv r → Keeps (route_ep box rand c msg len k d r)
  unfolding route_ep
  route_ep-Keeps k d r i =
      if_Keeps (ltb 0 d.timeout && not (k == c.callerid)) _ (some r)
        (if_Keeps (Mode.has d.mode Mode.peer2peer) _ (some (record r { sendtoserver = true }))
          (if_Keeps (is_listed c) _ none
            (called r
              (prepare box rand c msg len k (wants_encryption c d) d.pubkey
                (record r { peers_total = r.peers_total + 1 }))
              (is_target box rand c msg len d) (λ buf n. to_endpoint buf n (address_of c d))
              (λ buf n s. s) i (prepare-Prepares k (wants_encryption c d) d.pubkey r i.counts))
            tt)
          (record { counts = i.counts; all_sealed = i.all_sealed }))
        i

  route_all-Keeps :
      (k : ℕ) (ds : List (EpDesc R)) (r : Round)
      → Inv r
      → Keeps (route_all box rand c msg len (route_ep box rand c msg len) k ds r)
  unfolding route_all
  route_all-Keeps k [] r i = i
  route_all-Keeps k (d ∷ ds) r i =
      go (route_ep box rand c msg len k d r) (route_ep-Keeps k d r i) (route_all-Keeps (k + 1) ds)
    where
      go :
          (o : Option Round)
          → Keeps o
          → ((r' : Round)
              → Inv r'
              → Keeps (route_all box rand c msg len (route_ep box rand c msg len) (k + 1) ds r'))
          → Keeps (elim o [
            | none ↦ none
            | some r' ↦ route_all box rand c msg len (route_ep box rand c msg len) (k + 1) ds r'
          ])
      go none p h = tt
      go (some r') p h = h r' p

  to_peers-Keeps :
      (cmsg : Bytes) → Keeps (to_peers box rand c msg len (route_ep box rand c msg len) cmsg)
  unfolding to_peers
  to_peers-Keeps cmsg =
      let start : Inv (record {
        cmsg = cmsg;
        peers_total = 0;
        peers_encrypted = 0;
        sendtoserver = not (Mode.has c.mode Mode.peer2peer);
        out = [];
      }) =
        record { counts = omega arith; all_sealed = λ e. tt } in
      if_Keeps (Mode.has c.mode Mode.peer2peer) _ _ (route_all-Keeps 0 c.list.endpoints _ start)
        start

  to_server-Keeps : (r : Round) → Inv r → Keeps (to_server box rand c msg len r)
  unfolding to_server
  to_server-Keeps r i =
      if_Keeps r.sendtoserver _ (some r)
        (called r
          (prepare box rand c msg len (length c.list.endpoints)
            (Mode.has c.mode Mode.encryption && c.list.srv_has_pubkey) c.list.srv_pubkey
            (record r { peers_total = r.peers_total + 1 }))
          true (λ buf n. to_port buf n c.toport) (λ buf n s. s) i
          (prepare-Prepares (length c.list.endpoints)
            (Mode.has c.mode Mode.encryption && c.list.srv_has_pubkey) c.list.srv_pubkey r
            i.counts))
        i

equal_counts : (a b : ℕ) → (ltb 0 a && a == b) ≡ true → a ≡ b
equal_counts a b h = ground arith

module _ (box : SealedBox) {R : Type 0} (rand : ℕ → ℕ) (stack cmsg : Bytes) where
  -- The message that the round packs.
  abbrev pub packed : Client R → Bytes → ℕ → ℕ × Bytes
  packed c buffer n =
      (packmsg c.remote_server stack buf_size ((c.recport + 2 ^ 16 - c.portoffset) % 2 ^ 16) buffer
        n).0

  -- What a round yields.
  abbrev finish : Client R → Socket → Option Round → Option (List Request × Client R)
  finish c sock o = elim o [
    | none ↦ none
    | some r' ↦ some (
      r'.out,
      record c {
        remote_server = sock;
        send_encrypt_any = ltb 0 r'.peers_encrypted;
        send_encrypt_all = ltb 0 r'.peers_encrypted && r'.peers_encrypted == r'.peers_total;
      },
    )
  ]

  finish_secure :
      (c : Client R) (sock : Socket) (msg : Bytes) (len : ℕ) (o : Option Round)
      → Keeps box rand c msg len o
      → (out : List Request) (c' : Client R) → finish c sock o ≡ some (out, c')
      → c'.send_encrypt_all ≡ true
      → All (IsSealed box rand msg len) out
  finish_secure c sock msg len none i out c' e all =
      absurd (false≢true (ap (λ o. elim o [ none ↦ false | some q ↦ true ]) e))
  finish_secure c sock msg len (some r) i out c' e all =
      let outs : r.out ≡ out = ap (λ o. elim o [ none ↦ [] | some (q, d) ↦ q ]) e in
      let claim : (ltb 0 r.peers_encrypted && r.peers_encrypted == r.peers_total) ≡ true =
        ap (λ o. elim o [ none ↦ false | some (q, d) ↦ d.send_encrypt_all ]) e ∙ all in
      let equal : r.peers_encrypted ≡ r.peers_total =
        equal_counts r.peers_encrypted r.peers_total claim in
      subst (All (IsSealed box rand msg len)) outs (i.all_sealed equal)

  -- If the client claims, after a round for a message from the local machine, that everything it sent
  -- was encrypted, then every call of the round to a peer or to the server passes bytes that
  -- `encryptmsg` made of the packed message, and their length, with some key.
  pub recsrv_secure :
      (c : Client R) (buffer : Bytes) (n : ℕ) (out : List Request) (c' : Client R)
      → recsrv box rand stack cmsg c buffer n ≡ some (out, c')
      → c'.send_encrypt_all ≡ true
      → All (IsSealed box rand (packed c buffer n).1 (packed c buffer n).0) out
  unfolding recsrv
  recsrv_secure c buffer n out c' e all =
      let msg = (packed c buffer n).1 in
      let len = (packed c buffer n).0 in
      let sock =
        (packmsg c.remote_server stack buf_size ((c.recport + 2 ^ 16 - c.portoffset) % 2 ^ 16)
          buffer n).1 in
      go c sock msg len (to_peers box rand c msg len (route_ep box rand c msg len) cmsg)
        (to_peers-Keeps box rand c msg len cmsg) out c' e all
    where
      go :
          (c : Client R) (sock : Socket) (msg : Bytes) (len : ℕ) (o : Option Round)
          → Keeps box rand c msg len o
          → (out : List Request) (c' : Client R)
          → elim o [ none ↦ none | some r ↦ finish c sock (to_server box rand c msg len r) ]
            ≡ some (out, c')
          → c'.send_encrypt_all ≡ true
          → All (IsSealed box rand msg len) out
      go c sock msg len none i out c' e all =
          absurd (false≢true (ap (λ o. elim o [ none ↦ false | some q ↦ true ]) e))
      go c sock msg len (some r) i out c' e all =
          finish_secure c sock msg len (to_server box rand c msg len r)
            (to_server-Keeps box rand c msg len r i) out c' e all
