-- ===== src/Extra/Tests.antt =====
-- Configurations of a device with a running session.
use libov.Prelude.{ap, ℕ, ◌≡◌, refl, true, false, [], ◌∷◌, codes}
use libov.Real.{nat_real}
use libov.Message.{Bytes}
use libov.Session.{Render, throws, new_render}
use libov.Lobby.Key
use libov.Lobby.Key.{Name}
use libov.Lobby.Sample.{Json, nothing, ends, number, text, truth, item, object, json}
use libov.Extra.{Extra, deadline_set}
use libov.Extra.Draft.{Draft, Update, done, fails}
use libov.Extra.Proxy.{set_proxy}
use libov.Extra.Sections.{set_general, set_network, set_tuner}
use libov.Extra.Config.{start_draft, finish, set_sections, set_extra_config}
use libov.Extra.Config.Watched.{watched}
use libov.Extra.Config.Restart.{set_extra_config-watched}
use libov.Extra.Config.Clients.{AreClients, extra_after, set_proxy-AreClients}

abbrev running : Render ℕ
running =
    let r = new_render nat_real (3 ∷ []) in
    record r { session_active = true; has_tascar = true; has_client = true }

-- A deadline of 7, and no more.
abbrev later : Name → Json
later Key.deadline = number 7
later k = nothing

abbrev with_deadline : Name → Json
with_deadline Key.network = object later
with_deadline k = nothing

abbrev told : Render ℕ
told =
    let e = running.extra in
    record running { extra = record e { sorter_deadline = 7 }; notices = deadline_set 7 ∷ [] }

general_same :
    set_general json nat_real (object with_deadline) (start_draft running)
    ≡ done (start_draft running)
unfolding set_general libov.Extra.Draft.update libov.Extra.Draft.assign libov.Lobby.bool_of
    libov.Lobby.string_of libov.Settings.Differ.bool_eq mathlib.Core.Bool.xor new_render start_draft
general_same = refl

abbrev told_draft : Draft ℕ
told_draft = record { extra = told.extra; notices = told.notices; restart_session = false }

deadline_taken :
    set_network json nat_real running (object later) (start_draft running) ≡ done told_draft
unfolding set_network new_render start_draft libov.Lobby.real_of libov.Lobby.bool_of
    libov.Settings.Differ.bool_eq mathlib.Core.Bool.xor
deadline_taken = refl

sections_done :
    set_sections json nat_real [] running (object with_deadline) (start_draft running)
    ≡ done told_draft
unfolding set_sections
sections_done = rw (general_same, deadline_taken)

set_extra_config-watched_example :
    (false ≡ false) × (watched nat_real running.extra ≡ watched nat_real told.extra)
unfolding set_extra_config new_render
set_extra_config-watched_example =
    set_extra_config-watched json nat_real [] (object with_deadline) running told refl
      (ap (finish running) sections_done) refl

-- The include file changes, and an error in the section on the tuner forgets that it did.
abbrev wrong_tuner : Name → Json
wrong_tuner Key.tuner_f0 = text (codes "a")
wrong_tuner k = nothing

abbrev half_right : Name → Json
half_right Key.tscinclude = text (codes "x")
half_right Key.tuner = object wrong_tuner
half_right k = nothing

abbrev included : Render ℕ
included = let e = running.extra in record running { extra = record e { tscinclude = codes "x" } }

abbrev included_draft : Draft ℕ
included_draft = record { extra = included.extra; notices = []; restart_session = true }

include_taken :
    set_general json nat_real (object half_right) (start_draft running) ≡ done included_draft
unfolding set_general libov.Extra.Draft.update libov.Extra.Draft.assign libov.Lobby.bool_of
    libov.Lobby.string_of libov.Settings.Differ.bool_eq mathlib.Core.Bool.xor new_render start_draft
include_taken = refl

tuner_fails : set_tuner json nat_real (object wrong_tuner) included_draft ≡ fails included_draft
unfolding set_tuner libov.Extra.Draft.update libov.Lobby.string_of libov.Lobby.real_of new_render
tuner_fails = refl

restart_lost : set_extra_config json nat_real [] (object half_right) running ≡ throws included
unfolding set_extra_config set_sections new_render
restart_lost = rw (include_taken, tuner_fails)

-- A client 3, a client with the address of this device, and one with an identifier too large.
abbrev client : ℕ → Bytes → Name → Json
client n a Key.id = number n
client n a Key.ip = text a
client n a k = nothing

abbrev three_clients : Json
three_clients = item (object (client 3 (codes "10.0.0.3"))) (
    item (object (client 4 (codes "10.0.0.1"))) (item (object (client 40 (codes "10.0.0.4"))) ends))

abbrev a_proxy : Name → Json
a_proxy Key.isproxy = truth true
a_proxy Key.clients = three_clients
a_proxy k = nothing

abbrev proxied : Draft ℕ
proxied = record { extra = running.extra; notices = []; restart_session = false }

clients_taken :
    (extra_after (set_proxy json (codes "10.0.0.1") (object a_proxy) proxied)).proxyclients
    ≡ (3, codes "10.0.0.3") ∷ []
unfolding set_proxy libov.Lobby.bool_of libov.Lobby.int_of libov.Lobby.string_of
    libov.Settings.Differ.bool_eq mathlib.Core.Bool.xor new_render
clients_taken = refl

set_proxy-AreClients_example :
    AreClients
      (codes "10.0.0.1")
      0
      (extra_after (set_proxy json (codes "10.0.0.1") (object a_proxy) proxied)).proxyclients
unfolding new_render
set_proxy-AreClients_example =
    set_proxy-AreClients json (codes "10.0.0.1") (object a_proxy) proxied tt
