-- ===== src/Extra/Proxy.antt =====
-- The section on proxies in `set_extra_config` (src/ov_render_tascar.cc): a device hands packets on to its
-- clients, or takes them from another device.
use libov.Prelude.{
  ℕ, ◌-◌, ◌^◌, Bool, false, not, ◌&&◌, Option, some, List, [], ◌∷◌, ltb, ◌==◌, if◌then◌else◌,
  bytes_eq, length,
}
use libov.Message.{Bytes}
use libov.Settings.Differ.{bool_eq, list_eq}
use libov.Lobby.{JsonApi, ◌>>=◌, string_of, bool_of, int_of}
use libov.Lobby.Key
use libov.Protocol.{max_stage_id}
use libov.Extra.Draft.{Draft, Update, done, fetch, with_extra, asks_restart}

abbrev pub Clients : Type 0
Clients = List (ℕ × Bytes)

-- `clients[id] = ip`, by ascending identifier.
abbrev pub put_client : ℕ → Bytes → Clients → Clients
put_client id ip [] = (id, ip) ∷ []
put_client id ip ((k, v) ∷ m) =
    let rest = put_client id ip m in
    if ltb id k then (id, ip) ∷ (k, v) ∷ m else if k == id then (id, ip) ∷ m else (k, v) ∷ rest

abbrev pub client_eq : ℕ × Bytes → ℕ × Bytes → Bool
client_eq (k, v) (k', v') = k == k' && bytes_eq v v'

-- `localip` is the address of this device.
module _ {J R : Type 0} (json : JsonApi J R) (localip : Bytes) where
  -- The identifier is an `int32_t`, not negative.
  abbrev pub takes_client : ℕ → Bytes → Bool
  takes_client id ip =
      ltb id (2 ^ 31)
      && (ltb id max_stage_id && (not (length ip == 0) && not (bytes_eq ip localip)))

  abbrev pub add_client : ℕ → Bytes → Clients → Clients
  add_client id ip m = if takes_client id ip then put_client id ip m else m

  abbrev pub clients_of : List J → Clients → Option Clients
  clients_of [] m = some m
  clients_of (js ∷ rest) m = do
    id ← int_of json js Key.id (2 ^ 32 - 1)
    ip ← string_of json js Key.ip []
    clients_of rest (add_client id ip m)

  abbrev pub adopt_proxy : Bool → Bool → Bytes → Clients → Draft R → Draft R
  adopt_proxy is_proxy use_proxy proxyip clients d =
      let e = d.extra in
      let same =
        bool_eq is_proxy e.is_proxy
        && (bool_eq use_proxy e.use_proxy
            && (list_eq client_eq clients e.proxyclients && bytes_eq proxyip e.proxyip)) in
      let changed = with_extra d (record e {
        is_proxy = is_proxy;
        use_proxy = use_proxy;
        proxyclients = clients;
        proxyip = proxyip;
      }) in
      if same then changed else asks_restart changed

  unfoldable pub set_proxy : J → Draft R → Update R
  set_proxy js d = fetch (bool_of json js Key.isproxy false) d (λ is_proxy.
      fetch (bool_of json js Key.useproxy false) d (λ use_proxy.
        fetch (if use_proxy then string_of json js Key.proxyip [] else some []) d (λ proxyip.
          fetch (json.member js Key.clients) d (λ list.
            fetch
              (if is_proxy && json.is_array list
                then clients_of (json.elements list) []
                else some [])
              d (λ clients. done (adopt_proxy is_proxy use_proxy proxyip clients d))))))
