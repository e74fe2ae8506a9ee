-- ===== src/Balloc/Place.antt =====
-- `fit`, `place` and `behind` of the walk through the in-use list: what a placed run does to it.
use pmfs.Base.{
  ℕ, suc, Bool, false, ◌+◌, ◌-◌, ◌≤◌, ◌<◌, ◌^◌, ◌≡◌, refl, sym, ◌∙◌, true, false, ◌||◌, List, [],
  ◌∷◌, arith, length,
}
use pmfs.Base.Words.{add64-eq-add, sub64-eq-sub}
use pmfs.Balloc.{
  BlockNode, node, NodeCount, same, one_more, one_less, count_nodes, Fit, skip, fill, left, right,
  middle, fit, Walk, placed, no_memory, no_room, behind, place, next_block_low,
}
use pmfs.Balloc.Spec.{used, total, in_run, IsChain, used-below, IsChain-le}

-- the number of nodes before and after
abbrev pub Resized : NodeCount → ℕ → ℕ → Type 0
Resized same a b = b ≡ a
Resized one_more a b = b ≡ a + 1
Resized one_less a b = a ≡ b + 1

-- the node counter follows the length of the list
pub count_nodes-Resized :
    (change : NodeCount) (a b : ℕ)
    → a < 2 ^ 63
    → b < 2 ^ 63
    → Resized change a b
    → count_nodes change a ≡ b
unfolding count_nodes
count_nodes-Resized same a b ha hb h = sym h
count_nodes-Resized one_more a b ha hb h = add64-eq-add a 1 (omega arith) ∙ sym h
count_nodes-Resized one_less a b ha hb h =
    sub64-eq-sub a 1 (omega arith) (omega arith) ∙ omega arith

pub Resized-suc :
    (change : NodeCount) (a b : ℕ) → Resized change a b → Resized change (suc a) (suc b)
Resized-suc same a b h = omega arith
Resized-suc one_more a b h = omega arith
Resized-suc one_less a b h = omega arith

-- The run of `n` blocks from `low` on was free, and the list `l'` is `l` with the run in use.
pub record Placed (k high n : ℕ) (l l' : List BlockNode) (change : NodeCount) (low : ℕ)
    : Type 0 where
  pub chain : IsChain k high l'
  pub above : k ≤ low
  pub fits : low + n ≤ high
  pub was_free : (b : ℕ) → in_run low n b ≡ true → used l b ≡ false
  pub used_after : (b : ℕ) → used l' b ≡ (used l b || in_run low n b)
  pub total_after : total l' ≡ total l + n
  pub resized : Resized change (length l) (length l')

-- what the tests of `fit` say of a candidate that starts above `high`
abbrev pub Fits : ℕ → ℕ → ℕ → ℕ → Fit → Type 0
Fits high next low' high' skip = next ≤ high'
Fits high next low' high' fill = (low' ≡ high + 1) × (high' + 1 ≡ next)
Fits high next low' high' left = (low' ≡ high + 1) × (high' + 1 < next)
Fits high next low' high' right = (high + 1 < low') × (high' + 1 ≡ next)
Fits high next low' high' middle = (high + 1 < low') × (high' + 1 < next)

pub fit-Fits :
    (high next low' high' : ℕ)
    → high < 2 ^ 63
    → next < 2 ^ 63
    → high < low'
    → Fits high next low' high' (fit high next low' high')
unfolding fit
fit-Fits high next low' high' h k a = ground (arith, add64-eq-add high 1, sub64-eq-sub next 1)

next-IsChain :
    (m m' high : ℕ) (rest : List BlockNode)
    → IsChain m high rest
    → m' ≤ next_block_low high rest
    → IsChain m' high rest
unfolding next_block_low
next-IsChain m m' high [] c h = omega arith
next-IsChain m m' high (j ∷ rest) c h = (h, c.1, c.2)

used-next :
    (m high : ℕ) (rest : List BlockNode) (b : ℕ)
    → IsChain m high rest
    → b < next_block_low high rest
    → used rest b ≡ false
used-next m high rest b c h =
    used-below (suc b) high rest b (next-IsChain m (suc b) high rest c h) (omega arith)

module _ {k high n : ℕ} {i : BlockNode} {rest : List BlockNode}
    (c : IsChain k high (i ∷ rest)) where
  Placed-behind :
      {l' : List BlockNode} {change : NodeCount} {low : ℕ}
      → Placed (i.block_high + 2) high n rest l' change low
      → Placed k high n (i ∷ rest) (i ∷ l') change low
  Placed-behind {l'} {change} {low} p = record {
    chain = (c.0, c.1, p.chain);
    above = ground (arith, p.above);
    fits = p.fits;
    was_free = λ b h. ground (arith, p.was_free b, p.above);
    used_after = λ b. ground (arith, p.used_after b);
    total_after = ground (arith, p.total_after);
    resized = Resized-suc change (length rest) (length l') p.resized;
  }

  Placed-left :
      (low : ℕ)
      → 0 < n
      → low ≡ i.block_high + 1
      → low + n < next_block_low high rest
      → next_block_low high rest ≤ high
      → Placed k high n (i ∷ rest) (node i.block_low (low + n - 1) ∷ rest) same low
  Placed-left low pos e h le = record {
    chain = (c.0, omega arith, next-IsChain _ _ high rest c.2 (omega arith));
    above = omega arith;
    fits = omega arith;
    was_free = λ b r. ground (arith, used-next (i.block_high + 2) high rest b c.2);
    used_after = λ b. ground arith;
    total_after = omega arith;
    resized = refl;
  }

  Placed-middle :
      (low : ℕ)
      → 0 < n
      → i.block_high + 1 < low
      → low + n < next_block_low high rest
      → next_block_low high rest ≤ high
      → Placed k high n (i ∷ rest) (i ∷ node low (low + n - 1) ∷ rest) one_more low
  Placed-middle low pos e h le = record {
    chain = (c.0, c.1, (omega arith, omega arith, next-IsChain _ _ high rest c.2 (omega arith)));
    above = omega arith;
    fits = omega arith;
    was_free = λ b r. ground (arith, used-next (i.block_high + 2) high rest b c.2);
    used_after = λ b. ground arith;
    total_after = omega arith;
    resized = omega arith;
  }

module _ {k high n : ℕ} {i : BlockNode} (c : IsChain k high (i ∷ [])) (low : ℕ) (pos : 0 < n)
    (end : low + n ≡ high) where
  Placed-fill_end :
      low ≡ i.block_high + 1
      → Placed k high n (i ∷ []) (node i.block_low (low + n - 1) ∷ []) same low
  Placed-fill_end e = record {
    chain = omega arith;
    above = omega arith;
    fits = omega arith;
    was_free = λ b r. ground arith;
    used_after = λ b. ground arith;
    total_after = omega arith;
    resized = refl;
  }

  Placed-right_end :
      i.block_high + 1 < low
      → Placed k high n (i ∷ []) (i ∷ node low (low + n - 1) ∷ []) one_more low
  Placed-right_end e = record {
    chain = omega arith;
    above = omega arith;
    fits = omega arith;
    was_free = λ b r. ground arith;
    used_after = λ b. ground arith;
    total_after = omega arith;
    resized = omega arith;
  }

module _ {k high n : ℕ} {i j : BlockNode} {rest : List BlockNode}
    (c : IsChain k high (i ∷ j ∷ rest)) (low : ℕ) (pos : 0 < n) (end : low + n ≡ j.block_low) where
  Placed-fill :
      low ≡ i.block_high + 1
      → Placed k high n (i ∷ j ∷ rest) (node i.block_low j.block_high ∷ rest) one_less low
  Placed-fill e = record {
    chain = (c.0, omega arith, c.2.2);
    above = omega arith;
    fits = omega (arith, IsChain-le (j.block_high + 2) high rest c.2.2);
    was_free = λ b r. ground (arith, used-below (j.block_high + 2) high rest b c.2.2);
    used_after = λ b. ground arith;
    total_after = omega arith;
    resized = omega arith;
  }

  Placed-right :
      i.block_high + 1 < low
      → Placed k high n (i ∷ j ∷ rest) (i ∷ node low j.block_high ∷ rest) same low
  Placed-right e = record {
    chain = (c.0, c.1, (omega arith, omega arith, c.2.2));
    above = omega arith;
    fits = omega (arith, IsChain-le (j.block_high + 2) high rest c.2.2);
    was_free = λ b r. ground (arith, used-below (j.block_high + 2) high rest b c.2.2);
    used_after = λ b. ground arith;
    total_after = omega arith;
    resized = refl;
  }

-- What the outcome of a walk over `l` says about a run of `n` blocks.
abbrev pub PlacedBy : Bool → ℕ → ℕ → ℕ → List BlockNode → Walk → Type 0
PlacedBy mem k high n l (placed l' change low) = Placed k high n l l' change low
PlacedBy mem k high n l no_memory = mem ≡ false
PlacedBy mem k high n l no_room = Unit

pub behind-PlacedBy :
    (mem : Bool) (k high n : ℕ) (i : BlockNode) (rest : List BlockNode) (w : Walk)
    → IsChain k high (i ∷ rest)
    → PlacedBy mem (i.block_high + 2) high n rest w
    → PlacedBy mem k high n (i ∷ rest) (behind i w)
unfolding behind
behind-PlacedBy mem k high n i rest (placed l' change low) c p = Placed-behind c p
behind-PlacedBy mem k high n i rest no_memory c p = p
behind-PlacedBy mem k high n i rest no_room c p = tt

-- Wherever the candidate run is put, it was free and is in use afterwards.
pub place-PlacedBy :
    {k high n : ℕ} (mem : Bool) (i : BlockNode) (rest : List BlockNode) (low : ℕ) (f : Fit)
    (later : Walk)
    → IsChain k high (i ∷ rest)
    → 0 < n
    → next_block_low high rest ≤ high
    → Fits i.block_high (next_block_low high rest) low (low + n - 1) f
    → PlacedBy mem (i.block_high + 2) high n rest later
    → PlacedBy mem k high n (i ∷ rest) (place mem i rest low (low + n - 1) f later)
unfolding place next_block_low
place-PlacedBy mem i rest low skip later c pos le h p = behind-PlacedBy _ _ _ _ i rest later c p
place-PlacedBy mem i [] low fill later c pos le h p = Placed-fill_end c low pos (omega arith) h.0
place-PlacedBy mem i (j ∷ rest) low fill later c pos le h p =
    Placed-fill c low pos (omega arith) h.0
place-PlacedBy mem i rest low left later c pos le h p = Placed-left c low pos h.0 (omega arith) le
place-PlacedBy true i [] low right later c pos le h p = Placed-right_end c low pos (omega arith) h.0
place-PlacedBy false i [] low right later c pos le h p = refl
place-PlacedBy mem i (j ∷ rest) low right later c pos le h p =
    Placed-right c low pos (omega arith) h.0
place-PlacedBy true i rest low middle later c pos le h p =
    Placed-middle c low pos h.0 (omega arith) le
place-PlacedBy false i rest low middle later c pos le h p = refl

pub next-le :
    (m high : ℕ) (rest : List BlockNode)
    → IsChain m high rest
    → (m ≤ next_block_low high rest + 1) × (next_block_low high rest ≤ high)
unfolding next_block_low
next-le m high [] c = omega arith
next-le m high (j ∷ rest) c = omega (arith, IsChain-le (j.block_high + 2) high rest c.2)
