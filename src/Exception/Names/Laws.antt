-- ===== src/Exception/Names/Laws.antt =====
-- `Name` and `ExceptionMask` of MachException.cpp are inverse to one another.
use debug_learning.Prelude.{
  ℕ, ◌^◌, ◌≡◌, ◌≢◌, refl, true, some, List, [], ◌∷◌, ◌++◌, ◌==◌, if◌then◌else◌, arith, ap, sym,
  subst, ◌∙◌, Option-cases, Bool-cases, inl, inr,
}
use debug_learning.Sdk.{exc_corpse_variant_bit}
use debug_learning.Exception.Names.{
  text_eq, exception_prefix, strip, name_cases, find_case, name, mask_tests, find_mask,
  exception_mask,
}

-- A predicate that holds of every case holds of the one that is found.
abbrev Cases {ℓ} : (ℕ → List ℕ → Type ℓ) → List (ℕ × List ℕ) → Type ℓ
Cases P [] = Unit
Cases P ((t, s) ∷ cases) = P t s × Cases P cases

find_case-Cases {ℓ} :
    (P : ℕ → List ℕ → Type ℓ) (t : ℕ) (s : List ℕ) (cases : List (ℕ × List ℕ))
    → Cases P cases
    → find_case t cases ≡ some s
    → P t s
find_case-Cases P t s [] h e = cc
find_case-Cases P t s ((u, v) ∷ cases) h e = elim (Bool-cases (t == u)) [
  | inl same ↦
      let here : v ≡ s = ground (arith, same) in
      let at : u ≡ t = ground (arith, same) in subst (P t) here (subst (λ x. P x v) at h.0)
  | inr other ↦ find_case-Cases P t s cases h.1 (rw other at e)
]

-- The mask of the name of an exception type is the type's bit. The one type whose name has no
-- mask is `EXC_CORPSE_VARIANT_BIT`.
pub exception_mask-name :
    (t : ℕ) (s : List ℕ)
    → name t ≡ some s
    → exception_mask s ≡ (if t == exc_corpse_variant_bit then 0 else 2 ^ t)
unfolding name exception_mask
exception_mask-name t s e =
    find_case-Cases (λ t s. exception_mask s ≡ (if t == exc_corpse_variant_bit then 0 else 2 ^ t)) t
      s name_cases
      (
        refl,
        (
          refl,
          (
            refl,
            (
              refl,
              (refl, (refl, (refl, (refl, (refl, (refl, (refl, (refl, (refl, (refl, tt)))))))))),
            ),
          ),
        ),
      )
      e

-- Conversely, a text with a mask is the name of an exception type.
text_eq-eq : (s t : List ℕ) → text_eq s t ≡ true → s ≡ t
text_eq-eq [] [] h = refl
text_eq-eq [] (d ∷ t) h = cc
text_eq-eq (c ∷ s) [] h = cc
text_eq-eq (c ∷ s) (d ∷ t) h = ground (arith, text_eq-eq s t)

strip-append : (p s r : List ℕ) → strip p s ≡ some r → s ≡ p ++ r
strip-append [] s r h = ground arith
strip-append (c ∷ p) [] r h = cc
strip-append (c ∷ p) (d ∷ s) r h = ground (arith, strip-append p s r)

IsNamed : List ℕ → ℕ → Type 0
IsNamed rest m = (t : ℕ) × (name t ≡ some (exception_prefix ++ rest)) × (m ≡ 2 ^ t)

abbrev Tests : List (List ℕ × ℕ) → Type 0
Tests [] = Unit
Tests ((s, m) ∷ tests) = IsNamed s m × Tests tests

find_mask-Tests :
    (s : List ℕ) (tests : List (List ℕ × ℕ))
    → Tests tests
    → find_mask s tests ≢ 0
    → IsNamed s (find_mask s tests)
find_mask-Tests s [] h ne = absurd (ne refl)
find_mask-Tests s ((u, m) ∷ tests) h ne = elim (Bool-cases (text_eq s u)) [
  | inl same ↦ rw same (subst (λ v. IsNamed v m) (sym (text_eq-eq s u same)) h.0)
  | inr other ↦ rw other (find_mask-Tests s tests h.1 (rw other at ne))
]

mask_tests-Tests : Tests mask_tests
unfolding IsNamed name
mask_tests-Tests = (
  (1, refl, refl),
  (
    (2, refl, refl),
    (
      (3, refl, refl),
      (
        (4, refl, refl),
        (
          (5, refl, refl),
          (
            (6, refl, refl),
            (
              (7, refl, refl),
              (
                (8, refl, refl),
                (
                  (9, refl, refl),
                  (
                    (10, refl, refl),
                    ((11, refl, refl), ((12, refl, refl), ((13, refl, refl), tt))),
                  ),
                ),
              ),
            ),
          ),
        ),
      ),
    ),
  ),
)

-- A text whose mask is not 0 is the name of the exception type whose bit the mask is.
pub name-exception_mask :
    (s : List ℕ) → exception_mask s ≢ 0 → (t : ℕ) × (name t ≡ some s) × (exception_mask s ≡ 2 ^ t)
unfolding exception_mask IsNamed
name-exception_mask s ne = elim (Option-cases (strip exception_prefix s)) [
  | inl no_prefix ↦ absurd (ne (rw no_prefix))
  | inr (rest, e) ↦
      let found = find_mask-Tests rest mask_tests mask_tests-Tests (λ z. ne (rw e z)) in
      (found.0, found.1 ∙ ap some (sym (strip-append exception_prefix s rest e)), rw e found.2)
]
