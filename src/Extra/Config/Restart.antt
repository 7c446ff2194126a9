-- ===== src/Extra/Config/Restart.antt =====
-- After `set_extra_config` (src/ov_render_tascar.cc) a session that is not to start again has the settings
-- that it was made with.
use mathlib.Core.Path.{subst}
use libov.Prelude.{
  ℕ, ◌≡◌, refl, sym, Bool, true, false, ◌&&◌, some, [], chosen, if◌then◌else◌, bytes_eq,
  bytes_eq_sound, arith,
}
use libov.Real.{RealOps}
use libov.Message.{Bytes}
use libov.Settings.Differ.{bool_eq, list_eq}
use libov.Settings.Laws.{list_eq_sound}
use libov.Session.{Render, Exit, returns, throws, require_session_restart}
use libov.Lobby.{JsonApi, string_of, bool_of}
use libov.Lobby.Key
use libov.Lobby.Key.{Name}
use libov.Extra.Draft.{Draft, Update, done, fails, ◌>>=◌, with_extra, asks_restart, section}
use libov.Extra.Proxy.{Clients, client_eq, clients_of, adopt_proxy, set_proxy}
use libov.Extra.Config.{start_draft, keep_draft, finish, set_sections, set_extra_config}
use libov.Extra.Config.Watched.{
  watched, Tells, UpdateTells, bind-Tells, fetch-Tells, section-Tells, bool_eq_sound, no_flag,
}
use libov.Extra.Config.Told.{
  set_general-Tells, set_data_streams-Tells, set_tuner-Tells, set_spkcalib-Tells, set_network-Tells,
  set_headtrack-Tells, set_monitor-Tells, set_render-Tells, set_metronome-Tells, set_jackrec-Tells,
  set_mcrec-Tells,
}

client_eq_sound : (a b : ℕ × Bytes) → client_eq a b ≡ true → a ≡ b
client_eq_sound (k, v) (k', v') h = ground (arith, bytes_eq_sound v v')

-- Both sides of a test.
both : (a b : Bool) → (a && b) ≡ true → (a ≡ true) × (b ≡ true)
both true true h = (refl, refl)
both true false h = no_flag (sym h)
both false b h = no_flag (sym h)

quiet_flag : (a b : Bool) → a ≡ true → (a && b) ≡ false → b ≡ false
quiet_flag true b h e = e
quiet_flag false b h e = no_flag (sym h)

equal_in_all :
    {A B C D E : Type 0} (f : A → B → C → D → E) {a a' : A} {b b' : B} {c c' : C} {d d' : D}
    → a ≡ a'
    → b ≡ b'
    → c ≡ c'
    → d ≡ d'
    → f a b c d ≡ f a' b' c' d'
equal_in_all f p q r s = cc (p, q, r, s)

module _ {J R : Type 0} (json : JsonApi J R) (real : RealOps R) (localip : Bytes) where
  adopt_proxy-Tells :
      (is_proxy use_proxy : Bool) (proxyip : Bytes) (clients : Clients) (d : Draft R)
      → Tells real d (adopt_proxy json localip is_proxy use_proxy proxyip clients d)
  adopt_proxy-Tells is_proxy use_proxy proxyip clients d =
      let e = d.extra in
      let as_set = λ (i u : Bool) (c : Clients) (p : Bytes). record e {
        is_proxy = i;
        use_proxy = u;
        proxyclients = c;
        proxyip = p;
      } in
      let same =
        bool_eq is_proxy e.is_proxy
        && (bool_eq use_proxy e.use_proxy
            && (list_eq client_eq clients e.proxyclients && bytes_eq proxyip e.proxyip)) in
      let changed = with_extra d (as_set is_proxy use_proxy clients proxyip) in
      chosen (Tells real d) same changed (asks_restart changed)
        (λ equal quiet.
          let first = both (bool_eq is_proxy e.is_proxy) _ equal in
          let second = both (bool_eq use_proxy e.use_proxy) _ first.1 in
          let third = both (list_eq client_eq clients e.proxyclients) _ second.1 in
          (
            quiet,
            sym (
                equal_in_all (λ i u c p. watched real (as_set i u c p))
                  (bool_eq_sound is_proxy e.is_proxy first.0)
                  (bool_eq_sound use_proxy e.use_proxy second.0)
                  (list_eq_sound client_eq client_eq_sound clients e.proxyclients third.0)
                  (bytes_eq_sound proxyip e.proxyip third.1)),
          ))
        (λ differs quiet. no_flag quiet)

  set_proxy-Tells : (js : J) (d : Draft R) → UpdateTells real d (set_proxy json localip js d)
  unfolding set_proxy
  set_proxy-Tells js d = fetch-Tells real (bool_of json js Key.isproxy false) d _ (λ is_proxy.
      fetch-Tells real (bool_of json js Key.useproxy false) d _ (λ use_proxy.
        fetch-Tells real (if use_proxy then string_of json js Key.proxyip [] else some []) d _
          (λ proxyip. fetch-Tells real (json.member js Key.clients) d _ (λ list.
            fetch-Tells real
              (if is_proxy && json.is_array list
                then clients_of json localip (json.elements list) []
                else some [])
              d _ (λ clients. adopt_proxy-Tells is_proxy use_proxy proxyip clients d)))))

  section_next :
      (xcfg : J) (k : Name) (f : J → Draft R → Update R) (d : Draft R) (u : Update R)
      → UpdateTells real d u
      → ((js : J) (d' : Draft R) → UpdateTells real d' (f js d'))
      → UpdateTells real d (u >>= (λ d'. section json real xcfg k d' f))
  section_next xcfg k f d u i h =
      bind-Tells real d u _ i (λ d'. section-Tells json real xcfg k d' f h)

  set_sections-Tells :
      (r : Render R) (xcfg : J) (d : Draft R)
      → UpdateTells real d (set_sections json real localip r xcfg d)
  unfolding set_sections
  set_sections-Tells r xcfg d =
      section_next xcfg Key.mcrec _ d _
        (section_next xcfg Key.proxy _ d _
          (section_next xcfg Key.jackrec _ d _
            (section_next xcfg Key.metronome _ d _
              (section_next xcfg Key.render _ d _
                (section_next xcfg Key.monitor _ d _
                  (section_next xcfg Key.headtrack _ d _
                    (section_next xcfg Key.network _ d _
                      (section_next xcfg Key.spkcalib _ d _
                        (section_next xcfg Key.tuner _ d _
                          (section_next xcfg Key.scandatastreams _ d _
                            (set_general-Tells json real xcfg d) (set_data_streams-Tells json real))
                          (set_tuner-Tells json real))
                        (set_spkcalib-Tells json real))
                      (set_network-Tells json real r))
                    (set_headtrack-Tells json real))
                  (set_monitor-Tells json real))
                (set_render-Tells json real))
              (set_metronome-Tells json real r))
            (set_jackrec-Tells json real))
          set_proxy-Tells)
        (set_mcrec-Tells json real)

  -- A call that returned and needs no restart.
  abbrev Settled : Render R → Exit R → Type 0
  Settled r (throws r') = Unit
  Settled r (returns r') =
      r'.restart_needed ≡ false
      → (r.restart_needed ≡ false) × (watched real r.extra ≡ watched real r'.extra)

  finish-Settled :
      (r : Render R) (u : Update R)
      → UpdateTells real (start_draft r) u
      → r.session_active ≡ true
      → Settled r (finish r u)
  unfolding start_draft require_session_restart
  finish-Settled r (fails d) i active = tt
  finish-Settled r (done d) i active =
      chosen (λ r'. Settled r (returns r')) (r.session_active && d.restart_session)
        (require_session_restart (keep_draft r d)) (keep_draft r d) (λ asks quiet. no_flag quiet)
        (λ asks_not quiet.
          (quiet, (i (quiet_flag r.session_active d.restart_session active asks_not)).1))

  -- Where an active session takes a configuration without an exception and is not to start again, it was
  -- not to start again before, and all settings are as they were but those that are taken over while it
  -- runs: the deadline, expedited forwarding, the head tracking, the delay of the monitor, the metronome.
  pub set_extra_config-watched :
      (xcfg : J) (r r' : Render R)
      → r.session_active ≡ true
      → set_extra_config json real localip xcfg r ≡ returns r'
      → r'.restart_needed ≡ false
      → (r.restart_needed ≡ false) × (watched real r.extra ≡ watched real r'.extra)
  unfolding set_extra_config
  set_extra_config-watched xcfg r r' active e =
      let u = set_sections json real localip r xcfg (start_draft r) in
      subst (Settled r) e (finish-Settled r u (set_sections-Tells r xcfg (start_draft r)) active)
