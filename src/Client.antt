-- ===== src/Client.antt =====
-- `ovboxclient_t` (src/ovboxclient.h, src/ovboxclient.cc): the state of the client, and what its
-- threads ask the network for.
pub mod Route
pub mod Process
pub mod Ping
mod Sample
mod Tests
use Prim.Native.Nat.{bit_or}
use libov.Prelude.{
  ℕ, ◌+◌, ◌%◌, ◌^◌, Bool, true, false, not, ◌&&◌, ◌||◌, Option, none, some, List, [], ◌∷◌, ◌++◌,
  ◌==◌, if◌then◌else◌, get_elem?, ltb, length,
}
use libov.Protocol.Mode
use libov.Endpoint.{Endpoint}
use libov.Message.{Bytes}
use libov.CallerList.{EpDesc, EndpointList}
use libov.Socket.{Socket, Datagram, send_to, send_port}

-- The fields that the threads read. `proxyclients` is in the order of the map;
-- `decrypted` is the memory of `decrypted_msg`.
pub record Client (R : Type 0) : Type 0 where
  pub remote_server : Socket
  pub list : EndpointList R
  pub xdest : List ℕ
  pub proxyclients : List (ℕ × Endpoint)
  pub toport : ℕ
  pub recport : ℕ
  pub portoffset : ℕ
  pub callerid : ℕ
  pub mode : ℕ
  pub localep : Endpoint
  pub decrypted : Bytes
  pub sendlocal : Bool
  pub send_encrypt_any : Bool
  pub send_encrypt_all : Bool

-- The mode that the constructor computes from its flags.
unfoldable pub mode_of : Bool → Bool → Bool → Bool → Bool → Bool → ℕ
mode_of peer2peer receivedownmix donotsend senddownmix usingproxy encryption =
    let m1 = if peer2peer then bit_or 0 Mode.peer2peer else 0 in
    let m2 = if receivedownmix then bit_or m1 Mode.receivedownmix else m1 in
    let m3 = if donotsend then bit_or m2 Mode.donotsend else m2 in
    let m4 = if senddownmix then bit_or m3 Mode.senddownmix else m3 in
    let m5 = if usingproxy then bit_or m4 Mode.usingproxy else m4 in
    if encryption then bit_or m5 Mode.encryption else m5

-- A call of `remote_server.send`: with an endpoint, or with a port of the server.
pub data Request : Type 0 where
  to_endpoint : Bytes → ℕ → Endpoint → Request
  to_port : Bytes → ℕ → ℕ → Request

-- The calls, one after the other. `tx` gives what `sendto` returns for the k-th of them.
unfoldable pub perform : (ℕ → Option ℕ) → ℕ → Socket → List Request → List Datagram × Socket
perform tx k s [] = ([], s)
perform tx k s (to_endpoint buf len ep ∷ rs) =
    let (_, out, s') = send_to (tx k) s buf len ep in
    let (outs, end) = perform tx (k + 1) s' rs in (out ++ outs, end)
perform tx k s (to_port buf len port ∷ rs) =
    let (_, out, s') = send_port (tx k) s buf len port in
    let (outs, end) = perform tx (k + 1) s' rs in (out ++ outs, end)

module _ {R : Type 0} where
  -- `endpoints[callerid]` is in the list. The code does not test it: where it reads `own_addr`, this
  -- says whether the read is in bounds.
  abbrev pub is_listed : Client R → Bool
  is_listed c = ltb c.callerid (length c.list.endpoints)

  -- `endpoints[callerid].ep.sin_addr.s_addr`, of a client that is listed.
  abbrev pub own_addr : Client R → ℕ
  own_addr c = elim (get_elem? c.list.endpoints c.callerid) [ none ↦ 0 | some d ↦ d.ep.s_addr ]

  abbrev pub target_in_same_network : Client R → EpDesc R → Bool
  target_in_same_network c d = own_addr c == d.ep.s_addr && not (d.localep.s_addr == 0)

  -- Both ends want encryption, and the key of the peer is known.
  abbrev pub wants_encryption : Client R → EpDesc R → Bool
  wants_encryption c d =
      Mode.has c.mode Mode.encryption && (Mode.has d.mode Mode.encryption && d.has_pubkey)

  -- Sending is not deactivated.
  abbrev pub wants_data : Client R → EpDesc R → Bool
  wants_data c d =
      not (Mode.has d.mode Mode.donotsend)
      || (Mode.has d.mode Mode.usingproxy && target_in_same_network c d)

  -- The address that a peer is sent to.
  abbrev pub address_of : Client R → EpDesc R → Endpoint
  address_of c d = if c.sendlocal && target_in_same_network c d then d.localep else d.ep

  unfoldable pub get_encrypt_state : Client R → ℕ
  get_encrypt_state c =
      (if c.send_encrypt_any then 1 else 0) + (if c.send_encrypt_all then 1 else 0)
