-- ===== src/Tree/Progress.antt =====
-- The loop of recursive_truncate_blocks over the entries of a node.
use pmfs.Base.{
  ℕ, suc, ◌+◌, ◌-◌, ◌≤◌, ◌<◌, ◌≡◌, ◌≢◌, refl, sym, ◌∙◌, inr, Bool, true, false, not, ◌&&◌, ◌==◌,
  leb, ltb, arith, subst, ℕ_discrete, if◌then◌else◌,
}
use pmfs.Balloc.{SbInfo}
use pmfs.Tree.{Nodes, span, find_data_block}
use pmfs.Tree.Own.{InNodes, IsSound, AreKept, InNodes-kept, find_data_block_kept}
use pmfs.Tree.Truncate.{Truncate}

-- The tree of the height at `bp` has lost its blocks at the places for which `want` holds, and no others;
-- if `empty`, it has none left.
pub record Loses (nodes nodes' : Nodes) (height bp : ℕ) (want : ℕ → Bool) (empty : Bool)
    : Type 0 where
  pub frame : (p j : ℕ) → ¬ InNodes nodes height bp p → nodes' p j ≡ nodes p j
  pub within : (p : ℕ) → InNodes nodes' height bp p → InNodes nodes height bp p
  pub found :
      (b : ℕ)
      → b < span height
      → (if empty then 0 else find_data_block nodes' height bp b)
        ≡ (if want b then 0 else find_data_block nodes height bp b)

module _ (sbi : SbInfo) (nodes : Nodes) (h bp first last : ℕ) (part : ℕ → ℕ → Bool) where
  -- The loop has come to entry `k`.
  pub record Progress (k : ℕ) (t : Truncate) : Type 0 where
    pub root : (j : ℕ) → t.nodes bp j ≡ nodes bp j
    pub outside : (p j : ℕ) → ¬ InNodes nodes (suc h) bp p → t.nodes p j ≡ nodes p j
    pub ahead : (i : ℕ) → i < 512 → nodes bp i ≢ 0 → k ≤ i → AreKept nodes t.nodes h (nodes bp i)
    pub within :
        (i p : ℕ)
        → i < 512
        → nodes bp i ≢ 0
        → InNodes t.nodes h (nodes bp i) p
        → InNodes nodes h (nodes bp i) p
    pub empty : ℕ → Bool
    pub found :
        (i b : ℕ)
        → i < 512
        → nodes bp i ≢ 0
        → b < span h
        → (if empty i then 0 else find_data_block t.nodes h (nodes bp i) b) ≡ (
            if leb first i && ltb i k && part i b
            then 0
            else find_data_block nodes h (nodes bp i) b)
    pub empty_done : (i : ℕ) → empty i ≡ true → (first ≤ i) × (i < k)
    pub start : t.start ≡ (if ltb first k && not (empty first) then first + 1 else first)
    pub stop :
        t.last ≡ (if ltb last k && not (last == first) && not (empty last) then last - 1 else last)
    pub all_empty : t.all_range_freed ≡ true → (i : ℕ) → first ≤ i → i < k → empty i ≡ true

  -- What the body of the loop does at entry `k`, which is empty afterwards if `m`.
  pub record StepBy (k : ℕ) (t t' : Truncate) (m : Bool) : Type 0 where
    pub frame :
        (p j : ℕ)
        → ¬ ((nodes bp k ≢ 0) × InNodes t.nodes h (nodes bp k) p)
        → t'.nodes p j ≡ t.nodes p j
    pub below : nodes bp k ≢ 0 → Loses t.nodes t'.nodes h (nodes bp k) (part k) m
    pub start : t'.start ≡ (if k == first && not m then t.start + 1 else t.start)
    pub stop : t'.last ≡ (if not (k == first) && k == last && not m then t.last - 1 else t.last)
    pub all_empty : t'.all_range_freed ≡ true → (t.all_range_freed ≡ true) × (m ≡ true)

  module _ (w : IsSound sbi nodes (suc h) bp) where
    pub root_apart : (i : ℕ) → i < 512 → nodes bp i ≢ 0 → ¬ InNodes nodes h (nodes bp i) bp
    unfolding IsSound
    root_apart i lt ne = w.2 i lt ne

    apart :
        (i j p : ℕ)
        → i < 512
        → j < 512
        → i ≢ j
        → nodes bp i ≢ 0
        → nodes bp j ≢ 0
        → InNodes nodes h (nodes bp i) p
        → ¬ InNodes nodes h (nodes bp j) p
    unfolding IsSound
    apart i j p lt lt' other ne ne' m m' = other (w.3 i j p lt lt' ne ne' m m')

    inside :
        (i p : ℕ)
        → i < 512
        → nodes bp i ≢ 0
        → InNodes nodes h (nodes bp i) p
        → InNodes nodes (suc h) bp p
    unfolding InNodes
    inside i p lt ne m = inr (i, lt, ne, m)

    module _ (k : ℕ) (t t' : Truncate) (m : Bool) (k_lt : k < 512) (x : Progress k t)
        (y : StepBy k t t' m) where
      -- The step leaves the other entries' blocks alone.
      others_kept :
          (i : ℕ) → i < 512 → nodes bp i ≢ 0 → i ≢ k → AreKept t.nodes t'.nodes h (nodes bp i)
      others_kept i lt ne other p j here = y.frame p j λ (ne', there).
          apart i k p lt k_lt other ne ne' (x.within i p lt ne here) (x.within k p k_lt ne' there)

      step_within :
          (i p : ℕ)
          → i < 512
          → nodes bp i ≢ 0
          → InNodes t'.nodes h (nodes bp i) p
          → InNodes nodes h (nodes bp i) p
      step_within i p lt ne here = elim (ℕ_discrete i k) [
        | yes e ↦
            let ne' : nodes bp k ≢ 0 = subst (λ (a : ℕ). nodes bp a ≢ 0) e ne in
            x.within i p lt ne (
              subst (λ (a : ℕ). InNodes t.nodes h (nodes bp a) p) (sym e)
                ((y.below ne').within p
                  (subst (λ (a : ℕ). InNodes t'.nodes h (nodes bp a) p) e here)))
        | no other ↦
            x.within i p lt ne
              (InNodes-kept t.nodes t'.nodes h (nodes bp i) p (others_kept i lt ne other) here)
      ]

      found_here :
          (b : ℕ)
          → first ≤ k
          → nodes bp k ≢ 0
          → b < span h
          → (if m then 0 else find_data_block t'.nodes h (nodes bp k) b) ≡ (
              if leb first k && ltb k (k + 1) && part k b
              then 0
              else find_data_block nodes h (nodes bp k) b)
      found_here b le ne lt =
          let kept = x.ahead k k_lt ne (omega arith) in
          let before = find_data_block_kept nodes t.nodes h (nodes bp k) b kept lt in
          let done : (leb first k && ltb k (k + 1) && part k b) ≡ part k b = ground arith in
          rw done ((y.below ne).found b lt ∙ rw before refl)

      found_other :
          (i b : ℕ)
          → i ≢ k
          → i < 512
          → nodes bp i ≢ 0
          → b < span h
          → (if x.empty i then 0 else find_data_block t'.nodes h (nodes bp i) b) ≡ (
              if leb first i && ltb i (k + 1) && part i b
              then 0
              else find_data_block nodes h (nodes bp i) b)
      found_other i b other i_lt ne lt =
          let same =
            find_data_block_kept t.nodes t'.nodes h (nodes bp i) b (others_kept i i_lt ne other)
              lt in
          let done : ltb i (k + 1) ≡ ltb i k = ground arith in
          rw (same, done) (x.found i b i_lt ne lt)

      step_found :
          (i b : ℕ)
          → i < 512
          → nodes bp i ≢ 0
          → b < span h
          → first ≤ k
          → (if (if i == k then m else x.empty i)
              then 0
              else find_data_block t'.nodes h (nodes bp i) b)
            ≡ (if leb first i && ltb i (k + 1) && part i b
                then 0
                else find_data_block nodes h (nodes bp i) b)
      step_found i b i_lt ne lt le = elim (ℕ_discrete i k) [
        | yes e ↦
            let ne' : nodes bp k ≢ 0 = subst (λ (a : ℕ). nodes bp a ≢ 0) e ne in
            let same : (i == k) ≡ true = ground arith in
            rw same (
              subst
                (λ (a : ℕ). (if m then 0 else find_data_block t'.nodes h (nodes bp a) b) ≡ (
                  if leb first a && ltb a (k + 1) && part a b
                  then 0
                  else find_data_block nodes h (nodes bp a) b))
                (sym e) (found_here b le ne' lt))
        | no other ↦
            let differ : (i == k) ≡ false = ground arith in
            rw differ (found_other i b other i_lt ne lt)
      ]

      pub Progress-step : first ≤ k → k ≤ last → Progress (k + 1) t'
      Progress-step le le' = record {
        root = λ j.
            y.frame bp j (λ (ne, here). root_apart k k_lt ne (x.within k bp k_lt ne here))
            ∙ x.root j;
        outside = λ p j out.
            y.frame p j (λ (ne, here). out (inside k p k_lt ne (x.within k p k_lt ne here)))
            ∙ x.outside p j out;
        ahead = λ i lt ne far p j here.
            y.frame p j (λ (ne', there).
              apart i k p lt k_lt (omega (arith, far)) ne ne' here (x.within k p k_lt ne' there))
            ∙ x.ahead i lt ne (omega (arith, far)) p j here;
        within = step_within;
        empty = λ i. if i == k then m else x.empty i;
        found = λ i b i_lt ne lt. step_found i b i_lt ne lt le;
        empty_done = λ i e. ground (arith, e, x.empty_done i);
        start = ground (arith, y.start, x.start);
        stop = ground (arith, y.stop, x.stop);
        all_empty = λ e i a b. ground (arith, (y.all_empty e).1, x.all_empty (y.all_empty e).0 i a);
      }
