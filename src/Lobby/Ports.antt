-- ===== src/Lobby/Ports.antt =====
-- The extra ports that a configuration names.
use libov.Prelude.{ℕ, ◌<◌, ◌&&◌, List, [], ◌∷◌, ltb, arith, chosen}
use libov.Message.{Bytes}
use libov.Lobby.{JsonApi, number_of, xrecports}

-- All of these are ports.
abbrev pub ArePorts : List ℕ → Type 0
ArePorts [] = Unit
ArePorts (p ∷ ps) = ((0 < p) × (p < 65536)) × ArePorts ps

module _ {J R : Type 0} (json : JsonApi J R) (atoi : Bytes → ℕ) where
  -- Whatever the array holds, all the ports that are taken from it are above 0 and below 2^16.
  pub xrecports-ArePorts : (js : List J) → ArePorts (xrecports json atoi js)
  unfolding xrecports
  xrecports-ArePorts [] = tt
  xrecports-ArePorts (xrp ∷ js) =
      let p = number_of json atoi xrp in
      chosen ArePorts (ltb 0 p && ltb p 65536) _ _
        (λ yes_port. ((ground (arith, yes_port), ground (arith, yes_port)), xrecports-ArePorts js))
        (λ no_port. xrecports-ArePorts js)
