-- ===== src/Scene/Ports/Laws.antt =====
-- The comparison of the ends of names, and which audio ports meet (src/ov_render_tascar.cc).
use mathlib.Core.Path.{subst}
use libov.Prelude.{
  ℕ, zero, suc, ◌+◌, ◌-◌, ◌<◌, ◌≡◌, refl, ap, sym, ◌∙◌, ◌↔◌, ◌⊎◌, true, [], ◌∷◌, ◌++◌,
  bytes_eq_sound, bytes_eq_refl, length, length-append, drop, drop-append, take, arith, ge→ltb,
}
use libov.Message.{Bytes}
use libov.Scene.Ports.{get_zitaport, ends_with}

take-drop : (n : ℕ) (xs : Bytes) → take n xs ++ drop n xs ≡ xs
take-drop zero xs = refl
take-drop (suc n) [] = refl
take-drop (suc n) (x ∷ xs) = ap (◌∷◌ x) (take-drop n xs)

-- The test says exactly that the one text ends with the other.
pub ends_with_iff :
    (full ending : Bytes) → (ends_with full ending ≡ true) ↔ ((p : Bytes) × (full ≡ p ++ ending))
unfolding ends_with
ends_with_iff full ending = (split, joined)
  where
    split : ends_with full ending ≡ true → (p : Bytes) × (full ≡ p ++ ending)
    split h =
        let n = length full - length ending in
        let same : drop n full ≡ ending = bytes_eq_sound (drop n full) ending (ground arith) in
        (take n full, sym (take-drop n full) ∙ ap (◌++◌ (take n full)) same)

    before : (p : Bytes) → length (p ++ ending) - length ending ≡ length p
    before p = omega (arith, length-append p ending)

    joined : ((p : Bytes) × (full ≡ p ++ ending)) → ends_with full ending ≡ true
    joined (p, e) =
        subst (λ f. ends_with f ending ≡ true) (sym e)
          (rw
            (
              ge→ltb (length (p ++ ending)) (length ending) (omega (arith, length-append p ending)),
              before p,
              drop-append p ending,
            )
            (bytes_eq_refl ending))

-- The offset of a second renderer on the same machine, and that of a second receiver.
abbrev pub IsOffset : ℕ → Type 0
IsOffset o = (o ≡ 0) ⊎ (o ≡ 64)

abbrev pub IsSecond : ℕ → Type 0
IsSecond x = (x ≡ 0) ⊎ (x ≡ 100)

-- What two devices, with their offsets, can have in common: all, or one is the first receiver of the
-- second renderer and the other the second receiver of the first.
abbrev pub Meet : ℕ → ℕ → ℕ → ℕ → ℕ → ℕ → Type 0
Meet a b o p x y =
    ((a ≡ b) × (o ≡ p) × (x ≡ y))
    ⊎ ((((o ≡ 64) × (x ≡ 0)) × ((p ≡ 0) × (y ≡ 100)) × (a ≡ b + 18))
        ⊎ (((o ≡ 0) × (x ≡ 100)) × ((p ≡ 64) × (y ≡ 0)) × (b ≡ a + 18)))

-- The audio ports of devices below 32 meet only where they are the same, or where one is the first
-- receiver of the second renderer, for the device 18 above, and the other the second receiver of
-- the first.
pub get_zitaport-Meet :
    (a b o p x y : ℕ)
    → a < 32
    → b < 32
    → IsOffset o
    → IsOffset p
    → IsSecond x
    → IsSecond y
    → get_zitaport a o x ≡ get_zitaport b p y
    → Meet a b o p x y
unfolding get_zitaport
get_zitaport-Meet a b o p x y u v i j k l e = ground arith
