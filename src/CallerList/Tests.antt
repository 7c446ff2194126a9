-- ===== src/CallerList/Tests.antt =====
-- The endpoint list with whole milliseconds for times.
use libov.Prelude.{ℕ, ◌≡◌, refl, true, false, List, [], ◌∷◌, replicate}
use libov.Real.{nat_real}
use libov.CallerList.{
  EpDesc, new_connection, connection_lost, new_ep_desc, new_endpoint_list, get_num_clients,
}
use libov.CallerList.Laws.{All, IsWf, Call, registers, sets_pingtime, checks, steps, steps-new-IsWf}
use libov.CallerList.Lifetime.{silence, silence_lem, rounds, rounds_silent}

abbrev key : List ℕ
key = replicate 32 0

abbrev calls : List (Call ℕ)
calls = registers true 3 (replicate 16 1) 0x21 [] ∷ sets_pingtime true 3 12 ∷ checks key 30 ∷ []

steps-new-IsWf_example : IsWf nat_real (steps nat_real calls (new_endpoint_list nat_real key))
steps-new-IsWf_example = steps-new-IsWf nat_real key calls

-- A new peer, heard of once.
abbrev peer : EpDesc ℕ
peer = record (new_ep_desc nat_real key) { timeout = 120 }

silence_lem_example :
    silence nat_real key 3 121 peer
    ≡ (new_connection 3 peer ∷ connection_lost 3 ∷ [], new_ep_desc nat_real key)
unfolding new_ep_desc
silence_lem_example = silence_lem nat_real key 3 119 peer refl

rounds_silent_example :
    (get_num_clients nat_real
        (rounds nat_real key 121 30 (steps nat_real calls (new_endpoint_list nat_real key)))
      ≡ 0)
    × All
        (λ d. (d.timeout ≡ 0) × (d.announced ≡ false))
        (rounds nat_real key 121 30
          (steps nat_real calls (new_endpoint_list nat_real key))).endpoints
rounds_silent_example =
    rounds_silent nat_real key 30 (steps nat_real calls (new_endpoint_list nat_real key))
      (steps-new-IsWf nat_real key calls)
