-- ===== src/Bbuild/Noted.antt =====
-- The scan notes exactly the blocks of the inode table and of the inodes in use.
use pmfs.Base.{
  ℕ, zero, suc, ◌<◌, ◌≡◌, ◌≢◌, refl, sym, ◌↔◌, ◌⊎◌, inl, inr, Bool, true, ◌==◌, arith, Bool-cases,
  dec_lt, ap, subst, ◌∙◌,
}
use pmfs.Base.Iff.{with_guard, not_added, add_both, same_part}
use pmfs.Balloc.{BlockType, type_4k, type_2m, type_1g}
use pmfs.Tree.{Nodes}
use pmfs.Bbuild.{Bitmap, ScanBitmap}
use pmfs.Bbuild.Scan.{set_bit, block_of, note_block, each_entry, inode_crawl_recursive}

-- whether block number `b` of the type is noted
abbrev pub noted : ScanBitmap → BlockType → ℕ → Bool
noted bm type_4k b = bm.bitmap_4k b
noted bm type_2m b = bm.bitmap_2m b
noted bm type_1g b = bm.bitmap_1g b

-- `Visit nodes btype height block t off`: the tree of the height at `block`, of a file with blocks of
-- type `btype`, has a block of type `t` at `off`.
pub data Visit (nodes : Nodes) (btype : BlockType)
    : (height block : ℕ) → BlockType → ℕ → Type 0 where
  data_block : (block : ℕ) → Visit nodes btype zero block btype block
  meta_block : (height block : ℕ) → Visit nodes btype (suc height) block type_4k block
  below :
      (height block i : ℕ) (t : BlockType) (off : ℕ)
      → i < 512
      → nodes block i ≢ 0
      → Visit nodes btype height (nodes block i) t off
      → Visit nodes btype (suc height) block t off

-- block number `b` of type `t` is one of the tree
abbrev pub InTree : Nodes → BlockType → (height block : ℕ) → BlockType → ℕ → Type 0
InTree nodes btype height block t b =
    (off : ℕ) × Visit nodes btype height block t off × (b ≡ block_of t off)

set_bit_iff :
    (n b : ℕ) (bitmap : Bitmap) → (set_bit n bitmap b ≡ true) ↔ ((bitmap b ≡ true) ⊎ (b ≡ n))
unfolding set_bit
set_bit_iff n b bitmap = ground arith

pub note_block_iff :
    (t t' : BlockType) (off b : ℕ) (bm : ScanBitmap)
    → (noted (note_block t off bm) t' b ≡ true)
      ↔ ((noted bm t' b ≡ true) ⊎ ((t' ≡ t) × (b ≡ block_of t off)))
unfolding note_block
note_block_iff type_4k type_4k off b bm = with_guard refl (set_bit_iff _ b bm.bitmap_4k)
note_block_iff type_4k type_2m off b bm = not_added λ e. cc
note_block_iff type_4k type_1g off b bm = not_added λ e. cc
note_block_iff type_2m type_4k off b bm = not_added λ e. cc
note_block_iff type_2m type_2m off b bm = with_guard refl (set_bit_iff _ b bm.bitmap_2m)
note_block_iff type_2m type_1g off b bm = not_added λ e. cc
note_block_iff type_1g type_4k off b bm = not_added λ e. cc
note_block_iff type_1g type_2m off b bm = not_added λ e. cc
note_block_iff type_1g type_1g off b bm = with_guard refl (set_bit_iff _ b bm.bitmap_1g)

-- one of the first `n` entries is not 0 and has `Q`
abbrev pub SomeEntry {ℓ} : (Q : ℕ → Type ℓ) (entry : ℕ → ℕ) (n : ℕ) → Type ℓ
SomeEntry Q entry n = (i : ℕ) × (i < n) × (entry i ≢ 0) × Q (entry i)

-- A loop over entries adds what its body adds for each entry that is not 0.
pub each_entry_iff {ℓ κ μ} :
    {S : Type ℓ} (P : S → Type κ) (Q : ℕ → Type μ) (crawl : ℕ → S → S) (entry : ℕ → ℕ) (n : ℕ)
    (s : S)
    → ((block : ℕ) (s : S) → P (crawl block s) ↔ (P s ⊎ Q block))
    → P (each_entry crawl entry n s) ↔ (P s ⊎ SomeEntry Q entry n)
unfolding each_entry
each_entry_iff P Q crawl entry zero s body = (λ p. inl p, λ x. none_yet x)
  where
    none_yet : P s ⊎ SomeEntry Q entry 0 → P s
    none_yet (inl p) = p
    none_yet (inr (i, lt, ne, q)) = absurd (omega arith)
each_entry_iff P Q crawl entry (suc n) s body =
    let iff = each_entry_iff P Q crawl entry n s body in
    elim (Bool-cases (entry n == 0)) [
      | inl e ↦ rw e (λ p. one_more (iff.0 p), λ x. iff.1 (passed (ground arith) x))
      | inr e ↦
          let last = body (entry n) (each_entry crawl entry n s) in
          rw e (λ p. by_last (ground arith) iff.0 (last.0 p), λ x. last.1 (to_last iff.1 x))
    ]
  where
    one_more : P s ⊎ SomeEntry Q entry n → P s ⊎ SomeEntry Q entry (suc n)
    one_more (inl p) = inl p
    one_more (inr (i, lt, ne, q)) = inr (i, omega arith, ne, q)

    passed : entry n ≡ 0 → P s ⊎ SomeEntry Q entry (suc n) → P s ⊎ SomeEntry Q entry n
    passed e (inl p) = inl p
    passed e (inr (i, lt, ne, q)) = elim (dec_lt i n) [
      | yes h ↦ inr (i, h, ne, q)
      | no h ↦ absurd (ne (ap entry (omega arith) ∙ e))
    ]

    by_last :
        {R : Type κ}
        → entry n ≢ 0
        → (R → P s ⊎ SomeEntry Q entry n)
        → R ⊎ Q (entry n)
        → P s ⊎ SomeEntry Q entry (suc n)
    by_last ne f (inl r) = one_more (f r)
    by_last ne f (inr q) = inr (n, omega arith, ne, q)

    to_last :
        {R : Type κ}
        → (P s ⊎ SomeEntry Q entry n → R)
        → P s ⊎ SomeEntry Q entry (suc n)
        → R ⊎ Q (entry n)
    to_last f (inl p) = inl (f (inl p))
    to_last f (inr (i, lt, ne, q)) = elim (dec_lt i n) [
      | yes h ↦ inl (f (inr (i, h, ne, q)))
      | no h ↦ inr (subst (λ (j : ℕ). Q (entry j)) (omega arith) q)
    ]

pub leaf_block :
    {nodes : Nodes} (btype t : BlockType) (block off : ℕ)
    → Visit nodes btype zero block t off
    → (t ≡ btype) × (off ≡ block)
leaf_block btype t block off (data_block _) = (refl, refl)

node_block :
    {nodes : Nodes} (btype t : BlockType) (height block off : ℕ)
    → Visit nodes btype (suc height) block t off
    → ((t ≡ type_4k) × (off ≡ block))
      ⊎ SomeEntry (λ (child : ℕ). Visit nodes btype height child t off) (nodes block) 512
node_block btype t height block off (meta_block _ _) = inl (refl, refl)
node_block btype t height block off (below _ _ i _ _ lt ne v) = inr (i, lt, ne, v)

module _ (nodes : Nodes) (btype t : BlockType) (b : ℕ) where
  InTree-leaf :
      (block : ℕ) → InTree nodes btype zero block t b ↔ ((t ≡ btype) × (b ≡ block_of btype block))
  InTree-leaf block = (there, back)
    where
      there : InTree nodes btype zero block t b → (t ≡ btype) × (b ≡ block_of btype block)
      there (off, v, e) = let (p, q) = leaf_block btype t block off v in (p, cc)

      back : (t ≡ btype) × (b ≡ block_of btype block) → InTree nodes btype zero block t b
      back (e, h) = (
        block,
        subst (λ (t : BlockType). Visit nodes btype zero block t block) (sym e) (data_block block),
        rw e h,
      )

  InTree-node :
      (height block : ℕ)
      → InTree nodes btype (suc height) block t b ↔ (
          ((t ≡ type_4k) × (b ≡ block_of type_4k block))
          ⊎ SomeEntry (λ (child : ℕ). InTree nodes btype height child t b) (nodes block) 512)
  InTree-node height block = (there, back)
    where
      by_block :
          (off : ℕ)
          → b ≡ block_of t off
          → ((t ≡ type_4k) × (off ≡ block))
            ⊎ SomeEntry (λ (child : ℕ). Visit nodes btype height child t off) (nodes block) 512
          → ((t ≡ type_4k) × (b ≡ block_of type_4k block))
            ⊎ SomeEntry (λ (child : ℕ). InTree nodes btype height child t b) (nodes block) 512
      by_block off e (inl (p, q)) = inl (p, cc)
      by_block off e (inr (i, lt, ne, v)) = inr (i, lt, ne, (off, v, e))

      there :
          InTree nodes btype (suc height) block t b
          → ((t ≡ type_4k) × (b ≡ block_of type_4k block))
            ⊎ SomeEntry (λ (child : ℕ). InTree nodes btype height child t b) (nodes block) 512
      there (off, v, e) = by_block off e (node_block btype t height block off v)

      back :
          ((t ≡ type_4k) × (b ≡ block_of type_4k block))
            ⊎ SomeEntry (λ (child : ℕ). InTree nodes btype height child t b) (nodes block) 512
          → InTree nodes btype (suc height) block t b
      back (inl (e, h)) = (
        block,
        subst (λ (t : BlockType). Visit nodes btype (suc height) block t block) (sym e)
            (meta_block height block),
        rw e h,
      )
      back (inr (i, lt, ne, (off, v, e))) = (off, below height block i t off lt ne v, e)

  -- `inode_crawl_recursive` notes exactly the blocks of the tree.
  pub inode_crawl_recursive_iff :
      (height block : ℕ) (bm : ScanBitmap)
      → (noted (inode_crawl_recursive nodes btype height block bm) t b ≡ true)
        ↔ ((noted bm t b ≡ true) ⊎ InTree nodes btype height block t b)
  unfolding inode_crawl_recursive
  inode_crawl_recursive_iff zero block bm =
      same_part (note_block_iff btype t block b bm) (InTree-leaf block)
  inode_crawl_recursive_iff (suc height) block bm =
      add_both
        (each_entry_iff (λ (s : ScanBitmap). noted s t b ≡ true)
          (λ (child : ℕ). InTree nodes btype height child t b)
          (inode_crawl_recursive nodes btype height) (nodes block) 512 (note_block type_4k block bm)
          (inode_crawl_recursive_iff height))
        (note_block_iff type_4k t block b bm) (InTree-node height block)
