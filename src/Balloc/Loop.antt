-- ===== src/Balloc/Loop.antt =====
-- `release`, the loop of __pmfs_free_block: it frees a run that is in use, wherever it lies.
use pmfs.Base.{
  ℕ, ◌+◌, ◌-◌, ◌≤◌, ◌<◌, ◌^◌, ◌≡◌, refl, ◌⊎◌, inl, inr, Bool, true, false, ◌&&◌, not, List, [], ◌∷◌,
  ◌∙◌, arith, length,
}
use pmfs.Base.Words.{add64, add64-eq-add, sub64-eq-sub}
use pmfs.Balloc.{
  BlockNode, node, NodeCount, same, one_more, one_less, Release, released, kept, not_found, Fit,
  skip, fill, left, right, middle, past, cut, carve, release,
}
use pmfs.Balloc.Spec.{used, total, in_run, IsChain, used-below, IsChain-weaken}
use pmfs.Balloc.Place.{Resized, Resized-suc}

-- The run of `n` blocks from `low` on was in use, and the list `l'` is `l` without it.
pub record Released (k high n low : ℕ) (l l' : List BlockNode) (change : NodeCount) : Type 0 where
  pub chain : IsChain k high l'
  pub was_used : (b : ℕ) → in_run low n b ≡ true → used l b ≡ true
  pub used_after : (b : ℕ) → used l' b ≡ (used l b && not (in_run low n b))
  pub total_after : total l' + n ≡ total l
  pub resized : Resized change (length l) (length l')

-- What the outcome of the loop over `l` says about the run of `n` blocks from `low` on.
abbrev pub ReleasedBy : Bool → ℕ → ℕ → ℕ → ℕ → List BlockNode → Release → Type 0
ReleasedBy mem k high n low l (released l' change hint) = Released k high n low l l' change
ReleasedBy mem k high n low l kept = mem ≡ false
ReleasedBy mem k high n low l not_found = ¬ ((b : ℕ) → in_run low n b ≡ true → used l b ≡ true)

module _ {k high n : ℕ} (low : ℕ) {i : BlockNode} {rest : List BlockNode}
    (c : IsChain k high (i ∷ rest)) (pos : 0 < n) where
  Released-past :
      {l' : List BlockNode} {change : NodeCount}
      → Released (i.block_high + 2) high n low rest l' change
      → i.block_high < low
      → Released k high n low (i ∷ rest) (i ∷ l') change
  Released-past {l'} {change} p lt = record {
    chain = (c.0, c.1, p.chain);
    was_used = λ b h. ground (arith, p.was_used b);
    used_after = λ b. ground (arith, p.used_after b);
    total_after = omega (arith, p.total_after);
    resized = Resized-suc change (length rest) (length l') p.resized;
  }

  Released-whole :
      low ≡ i.block_low
      → low + n ≡ i.block_high + 1
      → Released k high n low (i ∷ rest) rest one_less
  Released-whole e f = record {
    chain = IsChain-weaken (i.block_high + 2) k high rest (omega arith) c.2;
    was_used = λ b h. ground arith;
    used_after = λ b. ground (arith, used-below (i.block_high + 2) high rest b c.2);
    total_after = omega arith;
    resized = omega arith;
  }

  Released-left :
      low ≡ i.block_low
      → low + n ≤ i.block_high
      → Released k high n low (i ∷ rest) (node (low + n) i.block_high ∷ rest) same
  Released-left e f = record {
    chain = (omega arith, f, c.2);
    was_used = λ b h. ground arith;
    used_after = λ b. ground (arith, used-below (i.block_high + 2) high rest b c.2);
    total_after = omega arith;
    resized = refl;
  }

  Released-right :
      i.block_low < low
      → low + n ≡ i.block_high + 1
      → Released k high n low (i ∷ rest) (node i.block_low (low - 1) ∷ rest) same
  Released-right e f = record {
    chain = (c.0, omega arith, IsChain-weaken _ _ high rest (omega arith) c.2);
    was_used = λ b h. ground arith;
    used_after = λ b. ground (arith, used-below (i.block_high + 2) high rest b c.2);
    total_after = omega arith;
    resized = refl;
  }

  Released-middle :
      i.block_low < low
      → low + n ≤ i.block_high
      → Released k high n low
          (i ∷ rest)
          (node i.block_low (low - 1) ∷ node (low + n) i.block_high ∷ rest)
          one_more
  Released-middle e f = record {
    chain = (c.0, omega arith, (omega arith, f, c.2));
    was_used = λ b h. ground arith;
    used_after = λ b. ground (arith, used-below (i.block_high + 2) high rest b c.2);
    total_after = omega arith;
    resized = omega arith;
  }

past-ReleasedBy :
    (mem : Bool) (k high n low : ℕ) (i : BlockNode) (rest : List BlockNode) (r : Release)
    → IsChain k high (i ∷ rest)
    → 0 < n
    → i.block_high < low
    → ReleasedBy mem (i.block_high + 2) high n low rest r
    → ReleasedBy mem k high n low (i ∷ rest) (past i r)
unfolding past
past-ReleasedBy mem k high n low i rest (released l' change hint) c pos lt p =
    Released-past low c pos p lt
past-ReleasedBy mem k high n low i rest kept c pos lt p = p
past-ReleasedBy mem k high n low i rest not_found c pos lt p =
    λ all. p λ b r. ground (arith, all b r)

-- A run that sticks out of the node `i` on either side is not wholly in use.
stuck-ReleasedBy :
    (mem : Bool) (k high n low : ℕ) (i : BlockNode) (rest : List BlockNode) (r : Release)
    → IsChain k high (i ∷ rest)
    → 0 < n
    → low ≤ i.block_high
    → (low < i.block_low) ⊎ (i.block_high + 1 < low + n)
    → ReleasedBy mem (i.block_high + 2) high n low rest r
    → ReleasedBy mem k high n low (i ∷ rest) (past i r)
unfolding past
stuck-ReleasedBy mem k high n low i rest (released l' change hint) c pos le out p =
    absurd (ground (arith, p.was_used low, used-below (i.block_high + 2) high rest low c.2))
stuck-ReleasedBy mem k high n low i rest kept c pos le out p = p
stuck-ReleasedBy mem k high n low i rest not_found c pos le (inl lt) p =
    λ all. ground (arith, all low, used-below (i.block_high + 2) high rest low c.2)
stuck-ReleasedBy mem k high n low i rest not_found c pos le (inr lt) p = λ all.
    ground (
      arith,
      all (i.block_high + 1),
      used-below (i.block_high + 2) high rest (i.block_high + 1) c.2,
    )

-- what the tests of `cut` say of a run of `n` blocks from `low` on
abbrev Cuts : BlockNode → ℕ → ℕ → Fit → Type 0
Cuts i low n skip =
    (i.block_high < low)
    ⊎ ((low ≤ i.block_high) × ((low < i.block_low) ⊎ (i.block_high + 1 < low + n)))
Cuts i low n fill = (low ≡ i.block_low) × (low + n ≡ i.block_high + 1)
Cuts i low n left = (low ≡ i.block_low) × (low + n ≤ i.block_high)
Cuts i low n right = (i.block_low < low) × (low + n ≡ i.block_high + 1)
Cuts i low n middle = (i.block_low < low) × (low + n ≤ i.block_high)

cut-Cuts : (i : BlockNode) (low n : ℕ) → 0 < n → Cuts i low n (cut i low (low + n - 1))
unfolding cut
cut-Cuts i low n pos = ground arith

carve-ReleasedBy :
    (mem : Bool) (k high n low : ℕ) (i : BlockNode) (rest : List BlockNode) (f : Fit)
    (later : Release)
    → IsChain k high (i ∷ rest)
    → 0 < n
    → low + n < 2 ^ 63
    → Cuts i low n f
    → ReleasedBy mem (i.block_high + 2) high n low rest later
    → ReleasedBy mem k high n low (i ∷ rest) (carve mem i rest low (low + n - 1) f later)
unfolding carve
carve-ReleasedBy mem k high n low i rest skip later c pos small (inl lt) p =
    past-ReleasedBy mem k high n low i rest later c pos lt p
carve-ReleasedBy mem k high n low i rest skip later c pos small (inr out) p =
    stuck-ReleasedBy mem k high n low i rest later c pos out.0 out.1 p
carve-ReleasedBy mem k high n low i rest fill later c pos small h p =
    Released-whole low c pos h.0 h.1
carve-ReleasedBy mem k high n low i rest left later c pos small h p =
    let e : add64 (low + n - 1) 1 ≡ low + n =
      add64-eq-add (low + n - 1) 1 (omega arith) ∙ omega arith in
    rw e (Released-left low c pos h.0 h.1)
carve-ReleasedBy mem k high n low i rest right later c pos small h p =
    rw (sub64-eq-sub low 1 (omega arith) (omega arith)) (Released-right low c pos h.0 h.1)
carve-ReleasedBy true k high n low i rest middle later c pos small h p =
    let e : add64 (low + n - 1) 1 ≡ low + n =
      add64-eq-add (low + n - 1) 1 (omega arith) ∙ omega arith in
    rw (e, sub64-eq-sub low 1 (omega arith) (omega arith)) (Released-middle low c pos h.0 h.1)
carve-ReleasedBy false k high n low i rest middle later c pos small h p = refl

-- Through the whole loop: a run that is freed was in use, and a run that is wholly in use is found.
pub release-ReleasedBy :
    (mem : Bool) (k high n low : ℕ) (l : List BlockNode)
    → IsChain k high l
    → 0 < n
    → low + n < 2 ^ 63
    → ReleasedBy mem k high n low l (release mem low (low + n - 1) l)
unfolding release
release-ReleasedBy mem k high n low [] c pos small = λ all. ground (arith, all low)
release-ReleasedBy mem k high n low (i ∷ rest) c pos small =
    carve-ReleasedBy mem k high n low i rest _ _ c pos small (cut-Cuts i low n pos)
      (release-ReleasedBy mem (i.block_high + 2) high n low rest c.2 pos small)
