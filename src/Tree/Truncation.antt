-- ===== src/Tree/Truncation.antt =====
-- recursive_truncate_blocks frees the places of the range, and leaves the others.
use pmfs.Base.{
  ℕ, zero, suc, ◌+◌, ◌-◌, ◌*◌, ◌/◌, ◌%◌, ◌≤◌, ◌<◌, ◌≡◌, ◌≢◌, refl, inl, inr, Bool, true, ◌&&◌, ◌==◌,
  arith, Bool-cases, subst, if◌then◌else◌, ap,
}
use native.Mathlib.Nat.{mod-lt, div-add-mod}
use pmfs.Balloc.{SbInfo, BlockType}
use pmfs.Tree.{Nodes, span}
use pmfs.Tree.Grow.{span-pos}
use pmfs.Tree.Own.{IsSound, IsSound-kept}
use pmfs.Tree.Range.{in_range, part, in_range_parts, div_le, index_lt}
use pmfs.Tree.Truncate.{
  Truncated, Truncate, free_data, after_child, free_child, recursive_truncate_blocks,
}
use pmfs.Tree.Progress.{Loses, Progress, StepBy}
use pmfs.Tree.Closing.{close_node-Loses}
use pmfs.Tree.Steps.{begin-Progress, truncate_loop-Progress, free_data-StepBy}

module _ (mem : Bool) (sbi : SbInfo) (nodes : Nodes) (h bp first last : ℕ)
    (below : (bp first_blk last_blk : ℕ) → SbInfo → Nodes → Truncated)
    (below_lem : (bp' a b : ℕ) (sbi' : SbInfo) (nodes' : Nodes)
      → a < span h
      → b < span h
      → a ≤ b
      → IsSound sbi nodes' h bp'
      → Loses nodes'
          (below bp' a b sbi' nodes').nodes
          h
          bp'
          (in_range a b)
          (below bp' a b sbi' nodes').meta_empty)
    (w : IsSound sbi nodes (suc h) bp) (le : first ≤ last) where
  abbrev first_blk : ℕ → ℕ
  first_blk k = if k == first / span h then first % span h else 0

  abbrev last_blk : ℕ → ℕ
  last_blk k = if k == last / span h then last % span h else span h - 1

  blk_le : (k : ℕ) → first_blk k ≤ last_blk k
  blk_le k =
      let pos = span-pos h in
      elim (Bool-cases (k == first / span h && k == last / span h)) [
        | inl e ↦
            let same : span h * (first / span h) ≡ span h * (last / span h) =
              ap (λ (a : ℕ). span h * a) (ground (arith, e)) in
            ground (arith, e, same, le, div-add-mod first (span h), div-add-mod last (span h))
        | inr e ↦ ground (arith, e, mod-lt first pos)
      ]

  child_below :
      (k : ℕ) (t : Truncate)
      → k < 512
      → Progress sbi nodes h bp (first / span h) (last / span h) (part (span h) first last) k t
      → nodes bp k ≢ 0
      → Loses t.nodes
          (below (nodes bp k) (first_blk k) (last_blk k) t.sbi t.nodes).nodes
          h
          (nodes bp k)
          (part (span h) first last k)
          (below (nodes bp k) (first_blk k) (last_blk k) t.sbi t.nodes).meta_empty
  unfolding IsSound
  child_below k t lt x ne =
      let pos = span-pos h in
      below_lem (nodes bp k) (first_blk k) (last_blk k) t.sbi t.nodes
        (ground (arith, mod-lt first pos)) (ground (arith, mod-lt last pos)) (blk_le k)
        (IsSound-kept sbi sbi nodes t.nodes h (nodes bp k) (λ y u. u)
          (x.ahead k lt ne (omega arith)) (w.1 k lt ne))

  after_child-StepBy :
      (k : ℕ) (t : Truncate) (r : Truncated)
      → nodes bp k ≢ 0
      → Loses t.nodes r.nodes h (nodes bp k) (part (span h) first last k) r.meta_empty
      → StepBy sbi nodes h bp
          (first / span h)
          (last / span h)
          (part (span h) first last)
          k
          t
          (after_child mem (first / span h) (last / span h) bp k t r)
          r.meta_empty
  unfolding after_child
  after_child-StepBy k t r ne x = elim (Bool-cases r.meta_empty) [
    | inl e ↦ rw e (record {
      frame = λ p j out. x.frame p j (λ m. out (ne, m));
      below = λ ne'.
          subst (λ (v : Bool). Loses t.nodes r.nodes h (nodes bp k) (part (span h) first last k) v)
            e x;
      start = ground arith;
      stop = ground arith;
      all_empty = λ q. (q, refl);
    })
    | inr e ↦ rw e (record {
      frame = λ p j out. x.frame p j (λ m. out (ne, m));
      below = λ ne'.
          subst (λ (v : Bool). Loses t.nodes r.nodes h (nodes bp k) (part (span h) first last k) v)
            e x;
      start = ground arith;
      stop = ground arith;
      all_empty = λ q. absurd (ground (arith, q));
    })
  ]

  free_child-StepBy :
      (k : ℕ) (t : Truncate)
      → k < 512
      → Progress sbi nodes h bp (first / span h) (last / span h) (part (span h) first last) k t
      → (m : Bool) × StepBy sbi nodes h bp
          (first / span h)
          (last / span h)
          (part (span h) first last)
          k
          t
          (free_child mem below (span h) first last bp k t)
          m
  unfolding free_child
  free_child-StepBy k t lt x = elim (Bool-cases (nodes bp k == 0)) [
    | inl e ↦
        let none : nodes bp k ≡ 0 = ground arith in
        (
          true,
          rw (x.root k, e)
              (record {
                frame = λ p j out. refl;
                below = λ ne. absurd (ne none);
                start = ground arith;
                stop = ground arith;
                all_empty = λ q. (q, refl);
              }),
        )
    | inr e ↦
        let ne : nodes bp k ≢ 0 = λ q. ground arith in
        (
          (below (nodes bp k) (first_blk k) (last_blk k) t.sbi t.nodes).meta_empty,
          rw (x.root k, e) (after_child-StepBy k t _ ne (child_below k t lt x ne)),
        )
  ]

-- The entries between the ends are in the range as a whole.
part_middle :
    (n first last i b : ℕ) → first / n < i → i < last / n → b < n → part n first last i b ≡ true
part_middle n first last i b low high lt = ground arith

recursive_truncate_blocks_lem :
    (mem : Bool) (btype : BlockType) (sbi : SbInfo) (h bp first last : ℕ) (sbi' : SbInfo)
    (nodes : Nodes)
    → first < span (suc h)
    → last < span (suc h)
    → first ≤ last
    → IsSound sbi nodes (suc h) bp
    → Loses nodes
        (recursive_truncate_blocks mem btype h bp first last sbi' nodes).nodes
        (suc h)
        bp
        (in_range first last)
        (recursive_truncate_blocks mem btype h bp first last sbi' nodes).meta_empty
unfolding recursive_truncate_blocks span
recursive_truncate_blocks_lem mem btype sbi zero bp first last sbi' nodes lt lt' le w =
    close_node-Loses sbi nodes 0 bp first last (λ i b. true) w _
      (truncate_loop-Progress sbi nodes 0 bp first last (λ i b. true) w (omega arith)
        (free_data mem btype bp)
        (λ k t a b x. (true, free_data-StepBy mem btype sbi nodes bp first last k t))
        (last + 1 - first) first _ (omega arith) (omega arith)
        (begin-Progress sbi nodes 0 bp first last (λ i b. true) sbi' le))
      le (omega arith) (λ i b low high q. refl) (in_range first last) λ b. ground arith
recursive_truncate_blocks_lem mem btype sbi (suc h) bp first last sbi' nodes lt lt' le w =
    let n : ℕ = span (suc h) in
    let pos = span-pos (suc h) in
    let last_index = index_lt (suc h) last lt' in
    let index_le = div_le n first last pos le in
    let again : (bp first_blk last_blk : ℕ) → SbInfo → Nodes → Truncated =
      λ bp' a b sbi' nodes'. recursive_truncate_blocks mem btype h bp' a b sbi' nodes' in
    close_node-Loses sbi nodes (suc h) bp (first / n) (last / n) (part n first last) w _
      (truncate_loop-Progress sbi nodes (suc h) bp (first / n) (last / n) (part n first last) w
        last_index _
        (λ k t a b x.
          free_child-StepBy mem sbi nodes (suc h) bp first last again
            (λ bp' a b sbi' nodes'.
              recursive_truncate_blocks_lem mem btype sbi h bp' a b sbi' nodes')
            w le k t (omega arith) x)
        (last / n + 1 - first / n) (first / n) _ (omega arith) (omega arith)
        (begin-Progress sbi nodes (suc h) bp (first / n) (last / n) (part n first last) sbi'
          index_le))
      index_le last_index (part_middle n first last) (in_range first last)
      λ b.
        let stop : first / n + (last / n + 1 - first / n) ≡ last / n + 1 =
          omega (arith, index_le) in
        rw (in_range_parts n first last b pos, stop) (ground arith)

-- For a range that is not empty, under a sound node of height `h + 1`, both ends of the range being places
-- that the node maps: by the entries that `recursive_truncate_blocks` leaves no place of the range has a
-- block, and every other place has the block that it had, where a node that is reported empty is one
-- without blocks. No meta-data block that is not the node's or below it has changed, and none is new below it.
pub recursive_truncate_blocks-Loses :
    (mem : Bool) (btype : BlockType) (h bp first last : ℕ) (sbi : SbInfo) (nodes : Nodes)
    → first < span (suc h)
    → last < span (suc h)
    → first ≤ last
    → IsSound sbi nodes (suc h) bp
    → Loses nodes
        (recursive_truncate_blocks mem btype h bp first last sbi nodes).nodes
        (suc h)
        bp
        (in_range first last)
        (recursive_truncate_blocks mem btype h bp first last sbi nodes).meta_empty
recursive_truncate_blocks-Loses mem btype h bp first last sbi nodes lt lt' le w =
    recursive_truncate_blocks_lem mem btype sbi h bp first last sbi nodes lt lt' le w
