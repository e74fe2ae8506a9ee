-- ===== src/Base/Iff.antt =====
-- Equivalences that say what a step of a program adds to a property.
use mathlib.Core.Logic.{◌↔◌, ◌⊎◌, inl, inr}

-- What is added under a condition that holds, and under one that does not.
pub with_guard {ℓ κ μ ν} :
    {P : Type ℓ} {Q : Type κ} {C : Type μ} {R : Type ν} → C → P ↔ (Q ⊎ R) → P ↔ (Q ⊎ (C × R))
with_guard {Q} {C} {R} c iff = (λ p. there (iff.0 p), λ s. iff.1 (back s))
  where
    there : Q ⊎ R → Q ⊎ (C × R)
    there (inl q) = inl q
    there (inr r) = inr (c, r)

    back : Q ⊎ (C × R) → Q ⊎ R
    back (inl q) = inl q
    back (inr (c, r)) = inr r

pub not_added {ℓ κ μ} : {P : Type ℓ} {C : Type κ} {R : Type μ} → ¬ C → P ↔ (P ⊎ (C × R))
not_added {P} {C} {R} fails = (λ p. inl p, back)
  where
    back : P ⊎ (C × R) → P
    back (inl p) = p
    back (inr (c, r)) = absurd (fails c)

-- What a first step adds and what the next adds are what both add.
pub add_both {ℓ κ μ ν θ ξ} :
    {X : Type ℓ} {Y : Type κ} {B : Type μ} {N : Type ν} {S : Type θ} {T : Type ξ}
    → X ↔ (Y ⊎ S)
    → Y ↔ (B ⊎ N)
    → T ↔ (N ⊎ S)
    → X ↔ (B ⊎ T)
add_both {X} {Y} {B} {N} {S} {T} outer inner parts = (λ x. there (outer.0 x), back)
  where
    there_first : B ⊎ N → B ⊎ T
    there_first (inl h) = inl h
    there_first (inr n) = inr (parts.1 (inl n))

    there : Y ⊎ S → B ⊎ T
    there (inl y) = there_first (inner.0 y)
    there (inr s) = inr (parts.1 (inr s))

    back_parts : N ⊎ S → X
    back_parts (inl n) = outer.1 (inl (inner.1 (inr n)))
    back_parts (inr s) = outer.1 (inr s)

    back : B ⊎ T → X
    back (inl h) = outer.1 (inl (inner.1 (inl h)))
    back (inr t) = back_parts (parts.0 t)

pub same_part {ℓ κ μ ν} :
    {X : Type ℓ} {B : Type κ} {N : Type μ} {T : Type ν} → X ↔ (B ⊎ N) → T ↔ N → X ↔ (B ⊎ T)
same_part {X} {B} {N} {T} outer part = (λ x. there (outer.0 x), back)
  where
    there : B ⊎ N → B ⊎ T
    there (inl h) = inl h
    there (inr n) = inr (part.1 n)

    back : B ⊎ T → X
    back (inl h) = outer.1 (inl h)
    back (inr t) = outer.1 (inr (part.0 t))
