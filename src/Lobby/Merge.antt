-- ===== src/Lobby/Merge.antt =====
-- `json_merge` (src/ov_tools.cc): the members of one configuration go over those of another, objects member
-- by member. The recursion goes into the members of the second; its depth is the fuel.
pub mod Fuel
use libov.Prelude.{
  ℕ, zero, suc, Bool, true, false, Option, none, some, List, [], ◌∷◌, if◌then◌else◌,
}
use libov.Message.{Bytes}
use libov.Lobby.{JsonApi, ◌>>=◌}

-- `operator[]` with the text of a key, which gives null where there is no such member, an assignment to
-- it, and how deep a value is.
pub record JsonTree (J : Type 0) : Type 0 where
  pub get : J → Bytes → Option J
  pub put : J → Bytes → J → Option J
  pub depth : J → ℕ

module _ {J R : Type 0} (json : JsonApi J R) (tree : JsonTree J) where
  abbrev pub merge_entry : (J → J → Option J) → Bytes → J → J → Option J
  merge_entry merge key v j =
      if json.is_object v
      then (do
        old ← tree.get j key
        new ← (if json.is_null old then some v else merge old v)
        tree.put j key new)
      else tree.put j key v

  abbrev pub merge_entries : (J → J → Option J) → List (Bytes × J) → J → Option J
  merge_entries merge [] j = some j
  merge_entries merge ((key, v) ∷ es) j = do
    j' ← merge_entry merge key v j
    merge_entries merge es j'

  unfoldable pub merge_within : ℕ → J → J → Option J
  merge_within zero lhs rhs = none
  merge_within (suc n) lhs rhs = do es ← json.entries rhs; merge_entries (merge_within n) es lhs

  abbrev pub json_merge : J → J → Option J
  json_merge lhs rhs = merge_within (suc (tree.depth rhs)) lhs rhs
