-- ===== src/Client/Route/Returns.antt =====
-- The rounds of `recsrv` on messages that fit into a packet.
use libov.Prelude.{
  ℕ, ◌+◌, ◌-◌, ◌%◌, ◌^◌, ◌≤◌, ◌<◌, ◌≡◌, Bool, true, false, not, ◌&&◌, Bool-cases, inl, inr, Option,
  none, some, List, [], ◌∷◌, ltb, leb, ◌==◌, if◌then◌else◌, length, arith, lt→ltb, ge→ltb, sub_size,
  add_size,
}
use libov.Protocol.{buf_size, header_len}
use libov.Protocol.Port
use libov.Protocol.Mode
use libov.Message
use libov.Message.{Bytes}
use libov.Message.Laws.{packmsg-Packed}
use libov.Message.Crypt.{SealedBox, encryptmsg}
use libov.CallerList.{EpDesc}
use libov.Socket.{Socket, packmsg}
use libov.Socket.Pack.{IsSocket}
use libov.Client.{Client, is_listed, Request, to_endpoint, to_port, wants_encryption, address_of}
use libov.Client.Route.{
  Round, prepare, add_call, is_target, route_ep, route_all, to_peers, to_server, recsrv,
}

-- There is a result.
abbrev pub Returns : {A : Type 0} → Option A → Type 0
Returns none = ⊥
Returns (some a) = Unit {0}

if_Returns :
    {A : Type 0} (b : Bool) (x y : Option A) → Returns x → Returns y → Returns (if b then x else y)
if_Returns true x y p q = p
if_Returns false x y p q = q

encryptmsg-Returns :
    (box : SealedBox) (r : ℕ) (dest : Bytes) (maxlen : ℕ) (src : Bytes) (n : ℕ) (pk : Bytes)
    → header_len ≤ n
    → n ≤ length src
    → n < 2 ^ 64
    → Returns (encryptmsg box r dest maxlen src n pk)
unfolding encryptmsg
encryptmsg-Returns box r dest maxlen src n pk long inside small =
    let rest : header_len + sub_size n header_len ≤ length src = omega arith in
    if_Returns (ltb maxlen (add_size n box.sealbytes)) (some (0, dest)) _ tt
      (rw (ge→ltb (length src) (header_len + sub_size n header_len) rest) tt)

module _ (box : SealedBox) {R : Type 0} (rand : ℕ → ℕ) (c : Client R) (msg : Bytes) (len : ℕ)
    (long : header_len ≤ len) (inside : len ≤ length msg) (small : len < 2 ^ 64)
    (listed : is_listed c ≡ true) where
  prepare-Returns :
      (k : ℕ) (b : Bool) (pk : Bytes) (r : Round) → Returns (prepare box rand c msg len k b pk r)
  unfolding prepare
  prepare-Returns k false pk r = tt
  prepare-Returns k true pk r =
      go (encryptmsg box (rand k) r.cmsg buf_size msg len pk)
        (encryptmsg-Returns box (rand k) r.cmsg buf_size msg len pk long inside small)
    where
      go :
          (o : Option (ℕ × Bytes))
          → Returns o
          → Returns {A = Bytes × ℕ × Round} (elim o [
            | none ↦ none
            | some (n, cmsg) ↦
                some (cmsg, n, record r { cmsg = cmsg; peers_encrypted = r.peers_encrypted + 1 })
          ])
      go none p = p
      go (some (n, cm)) p = tt

  called :
      (o : Option (Bytes × ℕ × Round)) (b : Bool) (call : Bytes → ℕ → Request)
      → Returns o
      → Returns {A = Round} (elim o [
        | none ↦ none
        | some (buf, n, r') ↦ some (add_call box rand c msg len b (call buf n) r')
      ])
  called none b call p = p
  called (some (buf, n, r')) b call p = tt

  route_ep-Returns :
      (k : ℕ) (d : EpDesc R) (r : Round) → Returns (route_ep box rand c msg len k d r)
  unfolding route_ep
  route_ep-Returns k d r =
      if_Returns (ltb 0 d.timeout && not (k == c.callerid)) _ (some r)
        (if_Returns (Mode.has d.mode Mode.peer2peer) _ (some (record r { sendtoserver = true }))
          (rw listed (
            called
              (prepare box rand c msg len k (wants_encryption c d) d.pubkey
                (record r { peers_total = r.peers_total + 1 }))
              (is_target box rand c msg len d) (λ buf n. to_endpoint buf n (address_of c d))
              (prepare-Returns k (wants_encryption c d) d.pubkey
                (record r { peers_total = r.peers_total + 1 }))))
          tt)
        tt

  route_all-Returns :
      (k : ℕ) (ds : List (EpDesc R)) (r : Round)
      → Returns (route_all box rand c msg len (route_ep box rand c msg len) k ds r)
  unfolding route_all
  route_all-Returns k [] r = tt
  route_all-Returns k (d ∷ ds) r =
      go (route_ep box rand c msg len k d r) (route_ep-Returns k d r) (route_all-Returns (k + 1) ds)
    where
      go :
          (o : Option Round)
          → Returns o
          → ((r' : Round)
              → Returns (route_all box rand c msg len (route_ep box rand c msg len) (k + 1) ds r'))
          → Returns (elim o [
            | none ↦ none
            | some r' ↦ route_all box rand c msg len (route_ep box rand c msg len) (k + 1) ds r'
          ])
      go none p h = p
      go (some r') p h = h r'

  to_peers-Returns :
      (cmsg : Bytes) → Returns (to_peers box rand c msg len (route_ep box rand c msg len) cmsg)
  unfolding to_peers
  to_peers-Returns cmsg =
      if_Returns (Mode.has c.mode Mode.peer2peer) _ _ (route_all-Returns 0 c.list.endpoints _) tt

  to_server-Returns : (r : Round) → Returns (to_server box rand c msg len r)
  unfolding to_server
  to_server-Returns r =
      if_Returns r.sendtoserver _ (some r)
        (called
          (prepare box rand c msg len (length c.list.endpoints)
            (Mode.has c.mode Mode.encryption && c.list.srv_has_pubkey) c.list.srv_pubkey
            (record r { peers_total = r.peers_total + 1 }))
          true (λ buf n. to_port buf n c.toport)
          (prepare-Returns (length c.list.endpoints)
            (Mode.has c.mode Mode.encryption && c.list.srv_has_pubkey) c.list.srv_pubkey
            (record r { peers_total = r.peers_total + 1 })))
        tt

-- The size of what `packmsg` makes, for any port.
module _ (s : Socket) (stack : Bytes) (port : ℕ) (msg : Bytes) (fits : IsSocket s)
    (low : port < 2 ^ 16) (big : buf_size ≤ length stack)
    (room : header_len + length msg ≤ buf_size) where
  size_with :
      (seq : ℕ)
      → seq < 2 ^ 16
      → let (n, m) = Message.packmsg stack buf_size s.secret s.callerid port seq msg (length msg) in
        (n ≡ header_len + length msg) × (length m ≡ length stack)
  size_with seq h =
      let packed =
        packmsg-Packed stack buf_size s.secret s.callerid port seq msg fits.secret_fits
          fits.callerid_fits low h room big (omega arith) in
      (packed.0.len, packed.1)

  packmsg-size :
      let (n, m) = (packmsg s stack buf_size port msg (length msg)).0 in
      (n ≡ header_len + length msg) × (length m ≡ length stack)
  unfolding packmsg
  packmsg-size = elim (Bool-cases (leb Port.maxspecialport port)) [
    | inl counted ↦ rw counted (size_with ((s.seqmap port + 1) % 0x10000) (omega arith))
    | inr special ↦ rw special (size_with 0 (omega arith))
  ]

module _ (box : SealedBox) {R : Type 0} (rand : ℕ → ℕ) (stack cmsg : Bytes) where
  -- If a received message fits into a packet with its header, and the client itself is in the list of
  -- endpoints, then a round of `recsrv` has a result: no read of the packed message or of the list is
  -- out of bounds, whatever the peers are and whichever of them want encryption.
  pub recsrv-Returns :
      (c : Client R) (buffer : Bytes)
      → IsSocket c.remote_server
      → buf_size ≤ length stack
      → header_len + length buffer ≤ buf_size
      → c.callerid < length c.list.endpoints
      → Returns (recsrv box rand stack cmsg c buffer (length buffer))
  unfolding recsrv
  recsrv-Returns c buffer fits big room known =
      let port = (c.recport + 2 ^ 16 - c.portoffset) % 2 ^ 16 in
      let n = (packmsg c.remote_server stack buf_size port buffer (length buffer)).0.0 in
      let m = (packmsg c.remote_server stack buf_size port buffer (length buffer)).0.1 in
      let sock = (packmsg c.remote_server stack buf_size port buffer (length buffer)).1 in
      let size = packmsg-size c.remote_server stack port buffer fits (omega arith) big room in
      let long : header_len ≤ n = omega (arith, size.0) in
      let inside : n ≤ length m = omega (arith, size.0, size.1, big, room) in
      let small : n < 2 ^ 64 = omega (arith, size.0, room) in
      let listed : is_listed c ≡ true = lt→ltb c.callerid (length c.list.endpoints) known in
      go c sock m n (to_peers box rand c m n (route_ep box rand c m n) cmsg)
        (to_peers-Returns box rand c m n long inside small listed cmsg)
        (to_server-Returns box rand c m n long inside small listed)
    where
      served :
          (c : Client R) (sock : Socket) (o : Option Round)
          → Returns o
          → Returns {A = List Request × Client R} (elim o [
            | none ↦ none
            | some r' ↦ some (
              r'.out,
              record c {
                remote_server = sock;
                send_encrypt_any = ltb 0 r'.peers_encrypted;
                send_encrypt_all = ltb 0 r'.peers_encrypted && r'.peers_encrypted == r'.peers_total;
              },
            )
          ])
      served c sock none p = p
      served c sock (some r') p = tt

      go :
          (c : Client R) (sock : Socket) (m : Bytes) (n : ℕ) (o : Option Round)
          → Returns o
          → ((r : Round) → Returns (to_server box rand c m n r))
          → Returns {A = List Request × Client R} (elim o [
            | none ↦ none
            | some r ↦ elim (to_server box rand c m n r) [
              | none ↦ none
              | some r' ↦ some (
                r'.out,
                record c {
                  remote_server = sock;
                  send_encrypt_any = ltb 0 r'.peers_encrypted;
                  send_encrypt_all =
                      ltb 0 r'.peers_encrypted && r'.peers_encrypted == r'.peers_total;
                },
              )
            ]
          ])
      go c sock m n none p h = p
      go c sock m n (some r) p h = served c sock (to_server box rand c m n r) (h r)
