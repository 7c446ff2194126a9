-- ===== src/Lobby/Merge/Fuel.antt =====
-- The fuel of `json_merge` (src/ov_tools.cc) is enough.
use libov.Prelude.{
  ℕ, zero, suc, ◌<◌, ◌≡◌, refl, Option, none, some, List, [], ◌∷◌, arith, inl, inr, Bool-cases,
  Option-cases,
}
use libov.Message.{Bytes}
use libov.Lobby.{JsonApi, ◌>>=◌}
use libov.Lobby.Merge.{JsonTree, merge_entry, merge_entries, merge_within, json_merge}

module _ {J R : Type 0} (json : JsonApi J R) (tree : JsonTree J) where
  entry_same :
      (f g : J → J → Option J) (key : Bytes) (v j : J)
      → ((old : J) → f old v ≡ g old v)
      → merge_entry json tree f key v j ≡ merge_entry json tree g key v j
  entry_same f g key v j h = elim (Bool-cases (json.is_object v)) [
    | inl object ↦ elim (Option-cases (tree.get j key)) [
      | inl missing ↦ rw (object, missing) refl
      | inr (old, found) ↦ elim (Bool-cases (json.is_null old)) [
        | inl null ↦ rw (object, found, null) refl
        | inr other ↦ rw (object, found, other, h old) refl
      ]
    ]
    | inr item ↦ rw item refl
  ]

  abbrev pub AreBelow : ℕ → List (Bytes × J) → Type 0
  AreBelow n [] = Unit
  AreBelow n ((key, v) ∷ es) = (tree.depth v < n) × AreBelow n es

  entries_same :
      (f g : J → J → Option J) (n : ℕ) (es : List (Bytes × J)) (j : J)
      → AreBelow n es
      → ((old v : J) → tree.depth v < n → f old v ≡ g old v)
      → merge_entries json tree f es j ≡ merge_entries json tree g es j
  entries_same f g n [] j below h = refl
  entries_same f g n ((key, v) ∷ es) j below h =
      rw (entry_same f g key v j (λ old. h old v below.0))
        (go_on (merge_entry json tree g key v j) (λ j'. entries_same f g n es j' below.1 h))
    where
      go_on :
          (o : Option J)
          → ((j' : J) → merge_entries json tree f es j' ≡ merge_entries json tree g es j')
          → (o >>= merge_entries json tree f es) ≡ (o >>= merge_entries json tree g es)
      go_on none same = refl
      go_on (some j') same = same j'

  -- The members of an object lie less deep than the object.
  module _
      (members_below : (j : J) (es : List (Bytes × J))
        → json.entries j ≡ some es
        → AreBelow (tree.depth j) es) where
    within_same :
        (n m : ℕ) (lhs rhs : J)
        → tree.depth rhs < n
        → tree.depth rhs < m
        → merge_within json tree n lhs rhs ≡ merge_within json tree m lhs rhs
    unfolding merge_within
    within_same zero m lhs rhs h k = absurd (omega (arith, h))
    within_same (suc n) zero lhs rhs h k = absurd (omega (arith, k))
    within_same (suc n) (suc m) lhs rhs h k = elim (Option-cases (json.entries rhs)) [
      | inl fails ↦ rw fails refl
      | inr (es, found) ↦ rw found (
          entries_same (merge_within json tree n) (merge_within json tree m) (tree.depth rhs) es lhs
            (members_below rhs es found)
            (λ old v below.
              within_same n m old v (omega (arith, h, below)) (omega (arith, k, below))))
    ]

    -- If members lie less deep than their object, json_merge has the result that any larger fuel gives.
    pub json_merge-enough :
        (n : ℕ) (lhs rhs : J)
        → tree.depth rhs < n
        → merge_within json tree n lhs rhs ≡ json_merge json tree lhs rhs
    json_merge-enough n lhs rhs h = within_same n (suc (tree.depth rhs)) lhs rhs h (omega arith)
