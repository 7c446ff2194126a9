-- ===== src/Client/Route.antt =====
-- `recsrv` and `xrecsrv`: where a message from the local machine is sent to. A round is a function of
-- the received bytes. `none` is a read out of bounds, which `encryptmsg` may make, and the comparison
-- with the own address, which every active peer in peer-to-peer mode takes.
pub mod Secure
pub mod Returns
use mathlib.Core.Bool.{xor}
use libov.Prelude.{
  ℕ, zero, suc, ◌+◌, ◌-◌, ◌%◌, ◌^◌, Bool, true, false, not, ◌&&◌, ◌||◌, Option, none, some, List,
  [], ◌∷◌, ◌++◌, ltb, ◌==◌, if◌then◌else◌, length,
}
use libov.Protocol.{buf_size}
use libov.Protocol.Mode
use libov.Message.{Bytes}
use libov.Message.Crypt.{SealedBox, encryptmsg}
use libov.CallerList.{EpDesc}
use libov.Socket.{Socket, packmsg}
use libov.Client.{
  Client, Request, to_endpoint, to_port, is_listed, own_addr, target_in_same_network,
  wants_encryption, wants_data, address_of,
}

-- The variables of the round: the buffer for encrypted messages, the counters, the flag for the
-- server, and the calls so far.
pub record Round : Type 0 where
  pub cmsg : Bytes
  pub peers_total : ℕ
  pub peers_encrypted : ℕ
  pub sendtoserver : Bool
  pub out : List Request

module _ (box : SealedBox) {R : Type 0} (rand : ℕ → ℕ) (c : Client R) (msg : Bytes) (len : ℕ) where
  -- `send_msg` and `send_len`: the message as it is, or encrypted with a key.
  unfoldable pub prepare : ℕ → Bool → Bytes → Round → Option (Bytes × ℕ × Round)
  prepare k false pubkey r = some (msg, len, r)
  prepare k true pubkey r = elim (encryptmsg box (rand k) r.cmsg buf_size msg len pubkey) [
    | none ↦ none
    | some (n, cmsg) ↦
        some (cmsg, n, record r { cmsg = cmsg; peers_encrypted = r.peers_encrypted + 1 })
  ]

  abbrev pub add_call : Bool → Request → Round → Round
  add_call b q r = if b then record r { out = r.out ++ (q ∷ []) } else r

  -- The tests on the way to a peer in peer-to-peer mode.
  abbrev pub is_target : EpDesc R → Bool
  is_target d =
      wants_data c d
      && not (xor (Mode.has d.mode Mode.receivedownmix) (Mode.has c.mode Mode.senddownmix))

  -- The body of the loop of `recsrv`, for the endpoint of device `ocid`.
  unfoldable pub route_ep : ℕ → EpDesc R → Round → Option Round
  route_ep ocid d r =
      if ltb 0 d.timeout && not (ocid == c.callerid)
      then (if Mode.has d.mode Mode.peer2peer
          then (if is_listed c
              then elim (prepare ocid (wants_encryption c d) d.pubkey
                  (record r { peers_total = r.peers_total + 1 })) [
                    | none ↦ none
                    | some (buf, n, r') ↦
                        some (add_call (is_target d) (to_endpoint buf n (address_of c d)) r')
                  ]
              else none)
          else some (record r { sendtoserver = true }))
      else some r

  -- The body of the loop of `xrecsrv`.
  unfoldable pub xroute_ep : ℕ → EpDesc R → Round → Option Round
  xroute_ep ocid d r =
      if ltb 0 d.timeout && (not (ocid == c.callerid) && Mode.has d.mode Mode.peer2peer)
      then (if is_listed c
          then elim (prepare ocid (wants_encryption c d) d.pubkey r) [
            | none ↦ none
            | some (buf, n, r') ↦ some (
                if wants_data c d
                then add_call true (to_endpoint buf n (address_of c d)) r'
                else record r' { sendtoserver = true })
          ]
          else none)
      else some r

  -- A loop over the endpoints from index `k` on.
  pub route_all : (ℕ → EpDesc R → Round → Option Round) → ℕ → List (EpDesc R) → Round → Option Round
  route_all f k [] r = some r
  route_all f k (d ∷ ds) r = elim (f k d r) [ none ↦ none | some r' ↦ route_all f (k + 1) ds r' ]

  -- The peers, in peer-to-peer mode.
  unfoldable pub to_peers : (ℕ → EpDesc R → Round → Option Round) → Bytes → Option Round
  unfolding route_all
  to_peers f cmsg =
      let start : Round = record {
        cmsg = cmsg;
        peers_total = 0;
        peers_encrypted = 0;
        sendtoserver = not (Mode.has c.mode Mode.peer2peer);
        out = [];
      } in
      if Mode.has c.mode Mode.peer2peer then route_all f 0 c.list.endpoints start else some start

  -- The server, after the peers: `recsrv` encrypts if it can.
  unfoldable pub to_server : Round → Option Round
  to_server r =
      if r.sendtoserver
      then elim (prepare (length c.list.endpoints)
          (Mode.has c.mode Mode.encryption && c.list.srv_has_pubkey) c.list.srv_pubkey
          (record r { peers_total = r.peers_total + 1 })) [
            | none ↦ none
            | some (buf, n, r') ↦ some (add_call true (to_port buf n c.toport) r')
          ]
      else some r

  -- `xrecsrv` sends the packed message as it is.
  unfoldable pub xto_server : Round → Round
  xto_server r = add_call r.sendtoserver (to_port msg len c.toport) r

-- A round of `recsrv` for `n > 0` bytes that were received: the calls, and the client afterwards.
module _ (box : SealedBox) {R : Type 0} (rand : ℕ → ℕ) (stack cmsg : Bytes) where
  unfoldable pub recsrv : Client R → Bytes → ℕ → Option (List Request × Client R)
  recsrv c buffer n =
      let ((len, msg), sock) =
        packmsg c.remote_server stack buf_size ((c.recport + 2 ^ 16 - c.portoffset) % 2 ^ 16) buffer
          n in
      elim (to_peers box rand c msg len (route_ep box rand c msg len) cmsg) [
        | none ↦ none
        | some r ↦ elim (to_server box rand c msg len r) [
          | none ↦ none
          | some r' ↦ some (
            r'.out,
            record c {
              remote_server = sock;
              send_encrypt_any = ltb 0 r'.peers_encrypted;
              send_encrypt_all = ltb 0 r'.peers_encrypted && r'.peers_encrypted == r'.peers_total;
            },
          )
        ]
      ]

  unfoldable pub xrecsrv : Client R → ℕ → Bytes → ℕ → Option (List Request × Client R)
  xrecsrv c destport buffer n =
      let ((len, msg), sock) = packmsg c.remote_server stack buf_size destport buffer n in
      elim (to_peers box rand c msg len (xroute_ep box rand c msg len) cmsg) [
        | none ↦ none
        | some r ↦ some ((xto_server box rand c msg len r).out, record c { remote_server = sock })
      ]
