-- ===== src/Tree/Own.antt =====
-- The meta-data blocks of a tree are its own: each stands at one place of it, and is in use.
use pmfs.Base.{
  ℕ, zero, suc, ◌/◌, ◌%◌, ◌<◌, ◌≡◌, ◌≢◌, refl, ◌∙◌, ◌⊎◌, inl, inr, true, ◌==◌, arith, Bool-cases,
  subst,
}
use native.Mathlib.Nat.{mod-lt, div-lt_iff_lt-mul}
use pmfs.Balloc.{SbInfo}
use pmfs.Balloc.Spec.{used}
use pmfs.Tree.{Nodes, span, find_data_block}
use pmfs.Tree.Grow.{span-pos}

-- block `p` is a meta-data block of the tree of the height at `bp`
unfoldable pub InNodes : Nodes → (height bp p : ℕ) → Type 0
InNodes nodes zero bp p = ⊥
InNodes nodes (suc height) bp p =
    (p ≡ bp) ⊎ ((i : ℕ) × (i < 512) × (nodes bp i ≢ 0) × InNodes nodes height (nodes bp i) p)

-- The meta-data blocks are in use, and no two places of the tree have the same.
unfoldable pub IsSound : SbInfo → Nodes → (height bp : ℕ) → Type 0
unfolding InNodes
IsSound sbi nodes zero bp = Unit
IsSound sbi nodes (suc height) bp =
    (used sbi.block_inuse_head (bp / 4096) ≡ true)
    × ((i : ℕ) → i < 512 → nodes bp i ≢ 0 → IsSound sbi nodes height (nodes bp i))
    × ((i : ℕ) → i < 512 → nodes bp i ≢ 0 → ¬ InNodes nodes height (nodes bp i) bp)
    × ((i j p : ℕ)
        → i < 512
        → j < 512
        → nodes bp i ≢ 0
        → nodes bp j ≢ 0
        → InNodes nodes height (nodes bp i) p
        → InNodes nodes height (nodes bp j) p
        → i ≡ j)

-- Every meta-data block of a sound tree is in use.
pub InNodes_used :
    (sbi : SbInfo) (nodes : Nodes) (height bp p : ℕ)
    → IsSound sbi nodes height bp
    → InNodes nodes height bp p
    → used sbi.block_inuse_head (p / 4096) ≡ true
unfolding IsSound InNodes
InNodes_used sbi nodes zero bp p w m = absurd m
InNodes_used sbi nodes (suc height) bp p w (inl e) = rw e w.0
InNodes_used sbi nodes (suc height) bp p w (inr (i, lt, ne, m)) =
    InNodes_used sbi nodes height (nodes bp i) p (w.1 i lt ne) m

-- The blocks of a tree are as they were.
abbrev pub AreKept : Nodes → Nodes → (height bp : ℕ) → Type 0
AreKept nodes nodes' height bp = (p j : ℕ) → InNodes nodes height bp p → nodes' p j ≡ nodes p j

kept_child :
    (nodes nodes' : Nodes) (height bp i : ℕ)
    → AreKept nodes nodes' (suc height) bp
    → i < 512
    → nodes bp i ≢ 0
    → AreKept nodes nodes' height (nodes bp i)
unfolding InNodes
kept_child nodes nodes' height bp i kept lt ne p j m = kept p j (inr (i, lt, ne, m))

kept_entry :
    (nodes nodes' : Nodes) (height bp i : ℕ)
    → AreKept nodes nodes' (suc height) bp
    → nodes' bp i ≡ nodes bp i
unfolding InNodes
kept_entry nodes nodes' height bp i kept = kept bp i (inl refl)

pub InNodes-kept :
    (nodes nodes' : Nodes) (height bp p : ℕ)
    → AreKept nodes nodes' height bp
    → InNodes nodes' height bp p
    → InNodes nodes height bp p
unfolding InNodes
InNodes-kept nodes nodes' zero bp p kept m = m
InNodes-kept nodes nodes' (suc height) bp p kept (inl e) = inl e
InNodes-kept nodes nodes' (suc height) bp p kept (inr (i, lt, ne, m)) =
    let e = kept_entry nodes nodes' height bp i kept in
    let ne' : nodes bp i ≢ 0 = λ z. ne (e ∙ z) in
    inr (
      i,
      lt,
      ne',
      InNodes-kept nodes nodes' height (nodes bp i) p
          (kept_child nodes nodes' height bp i kept lt ne')
          (subst (λ (c : ℕ). InNodes nodes' height c p) e m),
    )

pub find_data_block_kept :
    (nodes nodes' : Nodes) (height bp blocknr : ℕ)
    → AreKept nodes nodes' height bp
    → blocknr < span height
    → find_data_block nodes' height bp blocknr ≡ find_data_block nodes height bp blocknr
unfolding find_data_block span
find_data_block_kept nodes nodes' zero bp blocknr kept lt = refl
find_data_block_kept nodes nodes' (suc height) bp blocknr kept lt =
    let i : ℕ = blocknr / span height in
    let pos = span-pos height in
    let e = kept_entry nodes nodes' height bp i kept in
    elim (Bool-cases (nodes bp i == 0)) [
      | inl z ↦ rw (e, z) refl
      | inr z ↦
          rw (e, z)
            (find_data_block_kept nodes nodes' height (nodes bp i) (blocknr % span height)
              (kept_child nodes nodes' height bp i kept ((div-lt_iff_lt-mul pos).1 lt)
                (λ q. ground arith))
              (mod-lt blocknr pos))
    ]

pub IsSound-kept :
    (sbi sbi' : SbInfo) (nodes nodes' : Nodes) (height bp : ℕ)
    → ((x : ℕ) → used sbi.block_inuse_head x ≡ true → used sbi'.block_inuse_head x ≡ true)
    → AreKept nodes nodes' height bp
    → IsSound sbi nodes height bp
    → IsSound sbi' nodes' height bp
unfolding IsSound
IsSound-kept sbi sbi' nodes nodes' zero bp more kept w = tt
IsSound-kept sbi sbi' nodes nodes' (suc height) bp more kept w = (
  more (bp / 4096) w.0,
  λ i lt ne. rw (entry i) (
      IsSound-kept sbi sbi' nodes nodes' height (nodes bp i) more (child i lt (old i ne))
        (w.1 i lt (old i ne))),
  λ i lt ne m. w.2 i lt (old i ne) (back i bp lt (old i ne) m),
  λ i j p lt lt' ne ne' m m'.
      w.3 i j p lt lt' (old i ne) (old j ne') (back i p lt (old i ne) m)
        (back j p lt' (old j ne') m'),
)
  where
    entry : (i : ℕ) → nodes' bp i ≡ nodes bp i
    entry i = kept_entry nodes nodes' height bp i kept

    old : (i : ℕ) → nodes' bp i ≢ 0 → nodes bp i ≢ 0
    old i ne z = ne (entry i ∙ z)

    child : (i : ℕ) → i < 512 → nodes bp i ≢ 0 → AreKept nodes nodes' height (nodes bp i)
    child i lt ne = kept_child nodes nodes' height bp i kept lt ne

    back :
        (i p : ℕ)
        → i < 512
        → nodes bp i ≢ 0
        → InNodes nodes' height (nodes' bp i) p
        → InNodes nodes height (nodes bp i) p
    back i p lt ne m =
        InNodes-kept nodes nodes' height (nodes bp i) p (child i lt ne)
          (subst (λ (c : ℕ). InNodes nodes' height c p) (entry i) m)
