-- ===== src/Tree/Closing.antt =====
-- The end of recursive_truncate_blocks: the node is empty, or its entries that are free are cleared.
use pmfs.Base.{
  ℕ, zero, suc, ◌+◌, ◌-◌, ◌/◌, ◌%◌, ◌≤◌, ◌<◌, ◌≡◌, ◌≢◌, refl, sym, ◌∙◌, ◌⊎◌, inl, inr, Bool, true,
  false, ◌&&◌, ◌==◌, leb, ltb, arith, Bool-cases, subst, ℕ_discrete, if◌then◌else◌, ap, dec_lt,
}
use native.Mathlib.Nat.{mod-lt, div-lt_iff_lt-mul}
use pmfs.Balloc.{SbInfo}
use pmfs.Tree.{Nodes, span, find_data_block}
use pmfs.Tree.Grow.{span-pos}
use pmfs.Tree.Own.{InNodes, IsSound, AreKept, InNodes-kept, find_data_block_kept}
use pmfs.Tree.Replace.{find_below}
use pmfs.Tree.Truncate.{Truncate, are_zero, is_empty_meta_block, clear_range, close_node}
use pmfs.Tree.Progress.{Loses, Progress, root_apart}

are_zero_lem :
    (node : ℕ → ℕ) (n i k : ℕ) → are_zero node n i ≡ true → i ≤ k → k < i + n → node k ≡ 0
unfolding are_zero
are_zero_lem node zero i k e le lt = absurd (omega (arith, le, lt))
are_zero_lem node (suc n) i k e le lt = elim (ℕ_discrete k i) [
  | yes q ↦ ap node q ∙ ground (arith, e)
  | no ne ↦ are_zero_lem node n (i + 1) k (ground (arith, e)) (omega arith) (omega arith)
]

-- An empty block has no entry outside of the range.
is_empty_meta_block_lem :
    (node : ℕ → ℕ) (first last k : ℕ)
    → is_empty_meta_block node first last ≡ true
    → k < 512
    → (k < first) ⊎ (last < k)
    → node k ≡ 0
unfolding is_empty_meta_block
is_empty_meta_block_lem node first last k e lt (inl out) =
    are_zero_lem node first 0 k (ground (arith, e)) (omega arith) (omega arith)
is_empty_meta_block_lem node first last k e lt (inr out) =
    are_zero_lem node (512 - (last + 1)) (last + 1) k (ground (arith, e)) (omega arith)
      (omega arith)

module _ (sbi : SbInfo) (nodes : Nodes) (h bp first last : ℕ) (part : ℕ → ℕ → Bool)
    (w : IsSound sbi nodes (suc h) bp) (t : Truncate)
    (x : Progress sbi nodes h bp first last part (last + 1) t) (le : first ≤ last)
    (last_lt : last < 512)
    (middle : (i b : ℕ) → first < i → i < last → b < span h → part i b ≡ true) where
  -- whether the place is in the range
  abbrev gone : (i b : ℕ) → Bool
  gone i b = leb first i && ltb i (last + 1) && part i b

  abbrev cleared : ℕ → Bool
  cleared i = leb t.start i && leb i t.last

  -- An entry is cleared if all below it is gone.
  cleared-gone :
      (i b : ℕ)
      → i < 512
      → nodes bp i ≢ 0
      → b < span h
      → cleared i ≡ true
      → (if gone i b then 0 else find_data_block nodes h (nodes bp i) b) ≡ 0
  cleared-gone i b i_lt ne lt c = elim (Bool-cases (x.empty i)) [
    | inl e ↦ let f = x.found i b i_lt ne lt in sym f ∙ rw e refl
    | inr e ↦
        let out_first : i ≢ first = λ q.
          let e' : x.empty first ≡ false = subst (λ (a : ℕ). x.empty a ≡ false) q e in
          absurd (ground (arith, x.start, c)) in
        let out_last : i ≢ last = λ q.
          let e' : x.empty last ≡ false = subst (λ (a : ℕ). x.empty a ≡ false) q e in
          absurd (ground (arith, x.stop, c)) in
        let above : first < i = ground (arith, x.start, c) in
        let below : i < last = ground (arith, x.stop, c) in
        let g : gone i b ≡ true = ground (arith, middle i b above below lt) in rw g refl
  ]

  -- An entry that stays is not empty.
  stays : (i : ℕ) → cleared i ≡ false → x.empty i ≡ false
  stays i c = elim (Bool-cases (x.empty i)) [
    | inr e ↦ e
    | inl e ↦
        let (above, below) = x.empty_done i e in
        let low : t.start ≤ i = elim (ℕ_discrete i first) [
          | yes q ↦
              let e' : x.empty first ≡ true = subst (λ (a : ℕ). x.empty a ≡ true) q e in
              ground (arith, x.start)
          | no q ↦ ground (arith, x.start)
        ] in
        let high : i ≤ t.last = elim (ℕ_discrete i last) [
          | yes q ↦
              let e' : x.empty last ≡ true = subst (λ (a : ℕ). x.empty a ≡ true) q e in
              ground (arith, x.stop)
          | no q ↦ ground (arith, x.stop)
        ] in
        absurd (ground (arith, c, low, high))
  ]

  abbrev after : Nodes
  after = clear_range t.nodes bp t.start t.last

  after_elsewhere : (p j : ℕ) → p ≢ bp → after p j ≡ t.nodes p j
  unfolding clear_range
  after_elsewhere p j ne = ground arith

  after_root : (i : ℕ) → after bp i ≡ (if cleared i then 0 else nodes bp i)
  unfolding clear_range
  after_root i = let r = x.root i in ground arith

  after_below : (i : ℕ) → i < 512 → nodes bp i ≢ 0 → AreKept t.nodes after h (nodes bp i)
  after_below i lt ne p j m = after_elsewhere p j λ e.
      root_apart sbi nodes h bp first last part w i lt ne
        (x.within i bp lt ne (subst (λ (a : ℕ). InNodes t.nodes h (nodes bp i) a) e m))

  after_found :
      (i b : ℕ)
      → i < 512
      → b < span h
      → (if after bp i == 0 then 0 else find_data_block after h (after bp i) b) ≡ (
          if gone i b
          then 0
          else if nodes bp i == 0
          then 0
          else find_data_block nodes h (nodes bp i) b)
  after_found i b i_lt lt = elim (Bool-cases (nodes bp i == 0)) [
    | inl z ↦ let e : after bp i ≡ 0 = after_root i ∙ ground (arith, z) in rw (e, z) (ground arith)
    | inr z ↦
        let ne : nodes bp i ≢ 0 = λ q. ground arith in
        elim (Bool-cases (cleared i)) [
          | inl c ↦
              let e : after bp i ≡ 0 = after_root i ∙ rw c refl in
              rw (e, z) (sym (cleared-gone i b i_lt ne lt c))
          | inr c ↦
              let e : after bp i ≡ nodes bp i = after_root i ∙ rw c refl in
              let kept =
                find_data_block_kept t.nodes after h (nodes bp i) b (after_below i i_lt ne) lt in
              let f = x.found i b i_lt ne lt in
              let q = stays i c in
              rw (e, z, kept)
                (subst
                  (λ (v : Bool).
                    (if v then 0 else find_data_block t.nodes h (nodes bp i) b)
                    ≡ (if gone i b then 0 else find_data_block nodes h (nodes bp i) b))
                  q f)
        ]
  ]

  -- Nothing is left in an empty node.
  all_gone :
      (i b : ℕ)
      → i < 512
      → b < span h
      → t.all_range_freed ≡ true
      → is_empty_meta_block (t.nodes bp) first last ≡ true
      → 0 ≡ (
          if gone i b
          then 0
          else if nodes bp i == 0
          then 0
          else find_data_block nodes h (nodes bp i) b)
  all_gone i b i_lt lt all none = elim (Bool-cases (nodes bp i == 0)) [
    | inl z ↦ rw z (ground arith)
    | inr z ↦
        let ne : nodes bp i ≢ 0 = λ q. ground arith in
        let low : first ≤ i = elim (dec_lt i first) [
          | no ge ↦ omega arith
          | yes q ↦ absurd (
              ne (
                sym (x.root i)
                ∙ is_empty_meta_block_lem (t.nodes bp) first last i none i_lt (inl q)))
        ] in
        let high : i ≤ last = elim (dec_lt last i) [
          | no ge ↦ omega arith
          | yes q ↦ absurd (
              ne (
                sym (x.root i)
                ∙ is_empty_meta_block_lem (t.nodes bp) first last i none i_lt (inr q)))
        ] in
        let e = x.all_empty all i low (omega (arith, high)) in
        let f = x.found i b i_lt ne lt in
        rw z (
          subst
            (λ (v : Bool).
              (if v then 0 else find_data_block t.nodes h (nodes bp i) b)
              ≡ (if gone i b then 0 else find_data_block nodes h (nodes bp i) b))
            e f)
  ]

  kept_within : (p : ℕ) → InNodes t.nodes (suc h) bp p → InNodes nodes (suc h) bp p
  unfolding InNodes
  kept_within p (inl e) = inl e
  kept_within p (inr (i, lt, ne, m)) =
      let ne' : nodes bp i ≢ 0 = λ z. ne (x.root i ∙ z) in
      inr (i, lt, ne', x.within i p lt ne' (subst (λ (c : ℕ). InNodes t.nodes h c p) (x.root i) m))

  after_entry : (i : ℕ) → after bp i ≢ 0 → (after bp i ≡ nodes bp i) × (nodes bp i ≢ 0)
  after_entry i ne = elim (Bool-cases (cleared i)) [
    | inl c ↦ absurd (ne (after_root i ∙ rw c refl))
    | inr c ↦ let e : after bp i ≡ nodes bp i = after_root i ∙ rw c refl in (e, λ z. ne (e ∙ z))
  ]

  after_within : (p : ℕ) → InNodes after (suc h) bp p → InNodes nodes (suc h) bp p
  unfolding InNodes
  after_within p (inl e) = inl e
  after_within p (inr (i, lt, ne, m)) =
      let (e, ne') = after_entry i ne in
      inr (
        i,
        lt,
        ne',
        x.within i p lt ne' (
            InNodes-kept t.nodes after h (nodes bp i) p (after_below i lt ne')
              (subst (λ (c : ℕ). InNodes after h c p) e m)),
      )

  pub close_node-Loses :
      (want : ℕ → Bool)
      → ((b : ℕ) → want b ≡ gone (b / span h) (b % span h))
      → Loses nodes
          (close_node bp first last t).nodes
          (suc h)
          bp
          want
          (close_node bp first last t).meta_empty
  unfolding close_node span InNodes
  close_node-Loses want split =
      let pos = span-pos h in
      elim (Bool-cases (t.all_range_freed && is_empty_meta_block (t.nodes bp) first last)) [
        | inl e ↦ rw e (record {
          frame = x.outside;
          within = kept_within;
          found = λ b lt.
              rw (split b, find_below nodes h bp b)
                (all_gone (b / span h) (b % span h) ((div-lt_iff_lt-mul pos).1 lt) (mod-lt b pos)
                  (ground (arith, e)) (ground (arith, e)));
        })
        | inr e ↦ rw e (record {
          frame = λ p j out. after_elsewhere p j (λ q. out (inl q)) ∙ x.outside p j out;
          within = after_within;
          found = λ b lt.
              rw (split b, find_below nodes h bp b, find_below after h bp b)
                (after_found (b / span h) (b % span h) ((div-lt_iff_lt-mul pos).1 lt)
                  (mod-lt b pos));
        })
      ]
