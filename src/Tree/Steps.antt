-- ===== src/Tree/Steps.antt =====
-- The loop of recursive_truncate_blocks from its beginning to its end, and its body for data blocks.
use pmfs.Base.{
  ℕ, zero, suc, ◌+◌, ◌≤◌, ◌<◌, ◌≡◌, refl, sym, ◌∙◌, inl, inr, Bool, true, false, ◌&&◌, ◌==◌, leb,
  ltb, arith, Bool-cases, subst,
}
use pmfs.Balloc.{
  SbInfo, BlockType, FreeBlock, freed, assertion_failed, error_mng, bug, free_block_from,
}
use pmfs.Tree.{Nodes, get_blocknr}
use pmfs.Tree.Own.{InNodes, IsSound}
use pmfs.Tree.Truncate.{Truncate, count_freed, free_data, truncate_loop, begin}
use pmfs.Tree.Progress.{Progress, StepBy, Progress-step}

-- The count leaves everything but the allocator, the hint and itself.
IsCounted : Truncate → Truncate → Type 0
IsCounted t t' =
    (t'.nodes ≡ t.nodes)
    × (t'.start ≡ t.start)
    × (t'.last ≡ t.last)
    × (t'.all_range_freed ≡ t.all_range_freed)

count_freed-IsCounted : (r : FreeBlock) (t : Truncate) → IsCounted t (count_freed r t)
unfolding count_freed IsCounted
count_freed-IsCounted (freed sbi hint) t = (refl, refl, refl, refl)
count_freed-IsCounted assertion_failed t = (refl, refl, refl, refl)
count_freed-IsCounted error_mng t = (refl, refl, refl, refl)
count_freed-IsCounted bug t = (refl, refl, refl, refl)

free_data-IsCounted :
    (mem : Bool) (btype : BlockType) (bp i : ℕ) (t : Truncate)
    → IsCounted t (free_data mem btype bp i t)
unfolding free_data IsCounted
free_data-IsCounted mem btype bp i t = elim (Bool-cases (t.nodes bp i == 0)) [
  | inl e ↦ rw e (refl, refl, refl, refl)
  | inr e ↦ rw e (
      count_freed-IsCounted
        (free_block_from mem t.sbi (get_blocknr (t.nodes bp i)) btype t.start_hint) t)
]

module _ (sbi : SbInfo) (nodes : Nodes) (h bp first last : ℕ) (part' : ℕ → ℕ → Bool) where
  pub begin-Progress :
      (sbi' : SbInfo)
      → first ≤ last
      → Progress sbi nodes h bp first last part' first (begin first last sbi' nodes)
  unfolding begin
  begin-Progress sbi' le = record {
    root = λ j. refl;
    outside = λ p j out. refl;
    ahead = λ i lt ne le p j m. refl;
    within = λ i p lt ne m. m;
    empty = λ i. false;
    found = λ i b i_lt ne lt.
        let none : (leb first i && ltb i first && part' i b) ≡ false = ground arith in rw none refl;
    empty_done = λ i e. absurd (ground (arith, e));
    start = ground arith;
    stop = ground arith;
    all_empty = λ e i low lt. absurd (omega (arith, low, lt));
  }

  module _ (w : IsSound sbi nodes (suc h) bp) (last_lt : last < 512)
      (body : ℕ → Truncate → Truncate)
      (step : (k : ℕ) (t : Truncate)
        → first ≤ k
        → k ≤ last
        → Progress sbi nodes h bp first last part' k t
        → ((m : Bool) × StepBy sbi nodes h bp first last part' k t (body k t) m)) where
    pub truncate_loop-Progress :
        (n k : ℕ) (t : Truncate)
        → first ≤ k
        → k + n ≡ last + 1
        → Progress sbi nodes h bp first last part' k t
        → Progress sbi nodes h bp first last part' (last + 1) (truncate_loop body n k t)
    unfolding truncate_loop
    truncate_loop-Progress zero k t le e x =
        let done : k ≡ last + 1 = omega arith in
        subst (λ (a : ℕ). Progress sbi nodes h bp first last part' a t) done x
    truncate_loop-Progress (suc n) k t le e x =
        let (m, y) = step k t le (omega arith) x in
        truncate_loop-Progress n (k + 1) (body k t) (omega arith) (omega arith) (
          Progress-step sbi nodes h bp first last part' w k t (body k t) m (omega arith) x y le
            (omega arith))

pub free_data-StepBy :
    (mem : Bool) (btype : BlockType) (sbi : SbInfo) (nodes : Nodes) (bp first last k : ℕ)
    (t : Truncate)
    → StepBy sbi nodes 0 bp first last (λ i b. true) k t (free_data mem btype bp k t) true
unfolding IsCounted InNodes
free_data-StepBy mem btype sbi nodes bp first last k t =
    let (same, start, stop, all) = free_data-IsCounted mem btype bp k t in
    record {
      frame = λ p j out. rw same refl;
      below =
          λ ne. record { frame = λ p j out. rw same refl; within = λ p m. m; found = λ b lt. refl };
      start = start ∙ ground arith;
      stop = stop ∙ ground arith;
      all_empty = λ e. (sym all ∙ e, refl);
    }
