-- ===== src/Extra/Config/Clients.antt =====
-- The clients of a proxy, as `set_extra_config` (src/ov_render_tascar.cc) takes them.
use mathlib.Core.Path.{subst}
use libov.Prelude.{
  ℕ, ◌+◌, ◌-◌, ◌^◌, ◌<◌, ◌≤◌, ◌≡◌, refl, Bool, true, false, ◌&&◌, Option, none, some, List, [], ◌∷◌,
  ltb, ◌==◌, arith, chosen, if◌then◌else◌, bytes_eq,
}
use libov.Message.{Bytes}
use libov.Lobby.{JsonApi, string_of, bool_of, int_of}
use libov.Lobby.Plugins.{Gives, bind-Gives, Gives-any}
use libov.Lobby.Key
use libov.Extra.{Extra}
use libov.Extra.Draft.{Draft, Update, done, fails, fetch}
use libov.Extra.Proxy.{
  Clients, put_client, takes_client, add_client, clients_of, adopt_proxy, set_proxy,
}

-- Each identifier stands once, in ascending order from a bound on and below 32; each address is one
-- that is not empty and not that of this device.
abbrev pub AreClients : Bytes → ℕ → Clients → Type 0
AreClients localip lo [] = Unit
AreClients localip lo ((id, ip) ∷ m) =
    ((lo ≤ id) × (id < 32))
    × ((bytes_eq ip [] ≡ false) × (bytes_eq ip localip ≡ false))
    × AreClients localip (id + 1) m

-- The settings in either case.
abbrev pub extra_after : {R : Type 0} → Update R → Extra R
extra_after (done d) = d.extra
extra_after (fails d) = d.extra

module _ (localip : Bytes) where
  put_client-AreClients :
      (lo id : ℕ) (ip : Bytes) (m : Clients)
      → lo ≤ id
      → id < 32
      → (bytes_eq ip [] ≡ false) × (bytes_eq ip localip ≡ false)
      → AreClients localip lo m
      → AreClients localip lo (put_client id ip m)
  put_client-AreClients lo id ip [] low high fits c = ((low, high), fits, tt)
  put_client-AreClients lo id ip ((k, v) ∷ m) low high fits c =
      chosen (AreClients localip lo) (ltb id k) _ _
        (λ before. ((low, high), fits, ((ground (arith, before), c.0.1), c.1, c.2)))
        (λ not_before.
          chosen (AreClients localip lo) (k == id) _ _
            (λ same. (
              (low, high),
              fits,
              subst (λ n. AreClients localip (n + 1) m) (ground (arith, same)) c.2,
            ))
            (λ other. (
              c.0,
              c.1,
              put_client-AreClients (k + 1) id ip m (ground (arith, not_before, other)) high fits
                  c.2,
            )))

module _ {J R : Type 0} (json : JsonApi J R) (localip : Bytes) where
  taken_fits :
      (id : ℕ) (ip : Bytes)
      → takes_client json localip id ip ≡ true
      → (id < 32) × ((bytes_eq ip [] ≡ false) × (bytes_eq ip localip ≡ false))
  taken_fits id [] h = ground arith
  taken_fits id (c ∷ ip) h = (ground arith, (refl, ground arith))

  add_client-AreClients :
      (id : ℕ) (ip : Bytes) (m : Clients)
      → AreClients localip 0 m
      → AreClients localip 0 (add_client json localip id ip m)
  add_client-AreClients id ip m c =
      chosen (AreClients localip 0) (takes_client json localip id ip) _ _
        (λ taken.
          let fits = taken_fits id ip taken in
          put_client-AreClients localip 0 id ip m (ground arith) fits.0 fits.1 c)
        (λ dropped. c)

  clients_of-AreClients :
      (js : List J) (m : Clients)
      → AreClients localip 0 m
      → Gives (AreClients localip 0) (clients_of json localip js m)
  clients_of-AreClients [] m c = c
  clients_of-AreClients (x ∷ js) m c =
      bind-Gives (λ id. Unit {0}) (AreClients localip 0) (int_of json x Key.id (2 ^ 32 - 1)) _
        (Gives-any (int_of json x Key.id (2 ^ 32 - 1)))
        (λ id t.
          bind-Gives (λ ip. Unit {0}) (AreClients localip 0) (string_of json x Key.ip []) _
            (Gives-any (string_of json x Key.ip []))
            (λ ip u.
              clients_of-AreClients js (add_client json localip id ip m)
                (add_client-AreClients id ip m c)))

  fetch-AreClients :
      {A : Type 0} (P : A → Type 0) (o : Option A) (d : Draft R) (f : A → Update R)
      → Gives P o
      → AreClients localip 0 d.extra.proxyclients
      → ((a : A) → P a → AreClients localip 0 (extra_after (f a)).proxyclients)
      → AreClients localip 0 (extra_after (fetch o d f)).proxyclients
  fetch-AreClients P none d f g c h = c
  fetch-AreClients P (some a) d f g c h = h a g

  any_value :
      {A : Type 0} (o : Option A) (d : Draft R) (f : A → Update R)
      → AreClients localip 0 d.extra.proxyclients
      → ((a : A) → AreClients localip 0 (extra_after (f a)).proxyclients)
      → AreClients localip 0 (extra_after (fetch o d f)).proxyclients
  any_value o d f c h = fetch-AreClients (λ a. Unit {0}) o d f (Gives-any o) c (λ a t. h a)

  adopt_proxy-clients :
      (is_proxy use_proxy : Bool) (ip : Bytes) (m : Clients) (d : Draft R)
      → AreClients localip 0 m
      → AreClients localip 0 (adopt_proxy json localip is_proxy use_proxy ip m d).extra.proxyclients
  adopt_proxy-clients is_proxy use_proxy ip m d c =
      chosen (λ (e : Draft R). AreClients localip 0 e.extra.proxyclients) _ _ _ (λ same. c)
        (λ differs. c)

  -- Whatever clients a configuration names, and whether it is read to its end or not: each client has
  -- its identifier once, below 32, and an address that is not empty and not that of this device, if
  -- that was so before.
  pub set_proxy-AreClients :
      (js : J) (d : Draft R)
      → AreClients localip 0 d.extra.proxyclients
      → AreClients localip 0 (extra_after (set_proxy json localip js d)).proxyclients
  unfolding set_proxy
  set_proxy-AreClients js d c = any_value (bool_of json js Key.isproxy false) d _ c (λ is_proxy.
      any_value (bool_of json js Key.useproxy false) d _ c (λ use_proxy.
        any_value (if use_proxy then string_of json js Key.proxyip [] else some []) d _ c (λ ip.
          any_value (json.member js Key.clients) d _ c (λ list.
            fetch-AreClients (AreClients localip 0)
              (if is_proxy && json.is_array list
                then clients_of json localip (json.elements list) []
                else some [])
              d _
              (chosen (Gives (AreClients localip 0)) (is_proxy && json.is_array list) _ _
                (λ proxy. clients_of-AreClients (json.elements list) [] tt) (λ none_named. tt))
              c (λ m fit. adopt_proxy-clients is_proxy use_proxy ip m d fit)))))
