-- ===== src/Tree/Extend.antt =====
-- What it means that blocks are added to a tree, and that such steps compose.
use pmfs.Base.{
  ℕ, ◌/◌, ◌^◌, ◌≤◌, ◌<◌, ◌≡◌, ◌≢◌, refl, sym, ◌∙◌, ◌⊎◌, inl, inr, Bool, true, false, ◌||◌, arith,
  Bool-cases, subst,
}
use pmfs.Balloc.{SbInfo}
use pmfs.Balloc.Spec.{used, IsValid}
use pmfs.Tree.{span, find_data_block}
use pmfs.Tree.Blocks.{Blocks, AllocBlocks, and_then}
use pmfs.Tree.Own.{InNodes, IsSound}

-- The allocator is valid, and its device has less than 2 ^ 64 bytes and keeps block 0.
pub record IsDevice (sbi : SbInfo) : Type 0 where
  pub valid : IsValid sbi
  pub small : sbi.block_end ≤ 2 ^ 52
  pub super_used : used sbi.block_inuse_head 0 ≡ true

-- whether block `x` is in use
abbrev pub in_use : Blocks → ℕ → Bool
in_use s x = used s.sbi.block_inuse_head x

-- From `s` to `s'` the tree of the height at `bp` has got blocks at places for which `want` holds, at all
-- of them if `success`. It has lost none, and blocks in use that are not the tree's are as before.
pub record Extends (s s' : Blocks) (height bp : ℕ) (want : ℕ → Bool) (success : Bool) : Type 0 where
  pub device : IsDevice s'.sbi
  pub sound : IsSound s'.sbi s'.nodes height bp
  pub more : (x : ℕ) → in_use s x ≡ true → in_use s' x ≡ true
  pub frame :
      (p j : ℕ)
      → in_use s (p / 4096) ≡ true
      → ¬ InNodes s.nodes height bp p
      → s'.nodes p j ≡ s.nodes p j
  pub grown :
      (p : ℕ)
      → InNodes s'.nodes height bp p
      → InNodes s.nodes height bp p ⊎ (in_use s (p / 4096) ≡ false)
  pub kept :
      (b : ℕ)
      → b < span height
      → find_data_block s.nodes height bp b ≢ 0
      → find_data_block s'.nodes height bp b ≡ find_data_block s.nodes height bp b
  pub others :
      (b : ℕ)
      → b < span height
      → want b ≡ false
      → find_data_block s'.nodes height bp b ≡ find_data_block s.nodes height bp b
  pub found :
      success ≡ true
      → (b : ℕ) → b < span height
      → want b ≡ true
      → find_data_block s'.nodes height bp b ≢ 0

pub Extends-flag :
    (s : Blocks) (flag : Bool) (height bp : ℕ) (success : Bool)
    → IsDevice s.sbi
    → IsSound s.sbi s.nodes height bp
    → Extends s (record s { eof_blocks = flag }) height bp (λ b. false) success
Extends-flag s flag height bp success d w = record {
  device = d;
  sound = w;
  more = λ x u. u;
  frame = λ p j u m. refl;
  grown = λ p m. inl m;
  kept = λ b lt ne. refl;
  others = λ b lt e. refl;
  found = λ ok b lt e. absurd (ground (arith, e));
}

pub Extends-nothing :
    (s : Blocks) (height bp : ℕ) (success : Bool)
    → IsDevice s.sbi
    → IsSound s.sbi s.nodes height bp
    → Extends s s height bp (λ b. false) success
Extends-nothing s height bp success d w = Extends-flag s s.eof_blocks height bp success d w

-- Fewer places may be wanted than are allowed to change, and all that are missing were there.
pub Extends-wanted :
    (s s' : Blocks) (height bp : ℕ) (want want' : ℕ → Bool) (success : Bool)
    → ((b : ℕ) → b < span height → want' b ≡ false → want b ≡ false)
    → (success ≡ true
        → (b : ℕ) → b < span height
        → want' b ≡ true
        → (want b ≡ true) ⊎ (find_data_block s.nodes height bp b ≢ 0))
    → Extends s s' height bp want success
    → Extends s s' height bp want' success
Extends-wanted s s' height bp want want' success less there x = record {
  device = x.device;
  sound = x.sound;
  more = x.more;
  frame = x.frame;
  grown = x.grown;
  kept = x.kept;
  others = λ b lt e. x.others b lt (less b lt e);
  found = λ ok b lt e. by_place ok b lt (there ok b lt e);
}
  where
    by_place :
        success ≡ true
        → (b : ℕ) → b < span height
        → (want b ≡ true) ⊎ (find_data_block s.nodes height bp b ≢ 0)
        → find_data_block s'.nodes height bp b ≢ 0
    by_place ok b lt (inl e) z = x.found ok b lt e z
    by_place ok b lt (inr ne) z = ne (sym (x.kept b lt ne) ∙ z)

pub Extends-Extends :
    (s s' s'' : Blocks) (height bp : ℕ) (want want' : ℕ → Bool) (success : Bool)
    → Extends s s' height bp want true
    → Extends s' s'' height bp want' success
    → Extends s s'' height bp (λ b. want b || want' b) success
Extends-Extends s s' s'' height bp want want' success x y = record {
  device = y.device;
  sound = y.sound;
  more = λ b u. y.more b (x.more b u);
  frame = λ p j u out. y.frame p j (x.more (p / 4096) u) (still_out p u out) ∙ x.frame p j u out;
  grown = λ p m. was p (y.grown p m);
  kept = λ b lt ne. y.kept b lt (λ z. ne (sym (x.kept b lt ne) ∙ z)) ∙ x.kept b lt ne;
  others = λ b lt e. y.others b lt (ground (arith, e)) ∙ x.others b lt (ground (arith, e));
  found = λ ok b lt e. by_want ok b lt e (Bool-cases (want b));
}
  where
    still_out :
        (p : ℕ)
        → in_use s (p / 4096) ≡ true
        → ¬ InNodes s.nodes height bp p
        → ¬ InNodes s'.nodes height bp p
    still_out p u out m = elim (x.grown p m) [
      | inl old ↦ out old
      | inr free ↦ absurd (ground (arith, u, free))
    ]

    was_free : (p : ℕ) → in_use s' p ≡ false → in_use s p ≡ false
    was_free p free = elim (Bool-cases (in_use s p)) [
      | inl u ↦ absurd (ground (arith, x.more p u, free))
      | inr e ↦ e
    ]

    was :
        (p : ℕ)
        → InNodes s'.nodes height bp p ⊎ (in_use s' (p / 4096) ≡ false)
        → InNodes s.nodes height bp p ⊎ (in_use s (p / 4096) ≡ false)
    was p (inl m) = x.grown p m
    was p (inr free) = inr (was_free (p / 4096) free)

    by_want :
        success ≡ true
        → (b : ℕ) → b < span height
        → (want b || want' b) ≡ true
        → (want b ≡ true) ⊎ (want b ≡ false)
        → find_data_block s''.nodes height bp b ≢ 0
    by_want ok b lt e (inl w) z = let ne = x.found refl b lt w in ne (sym (y.kept b lt ne) ∙ z)
    by_want ok b lt e (inr w) z = y.found ok b lt (ground (arith, e, w)) z

-- What an allocation does to the tree.
abbrev pub ExtendsBy : Blocks → (height bp : ℕ) → (want : ℕ → Bool) → AllocBlocks → Type 0
ExtendsBy s height bp want r = Extends s r.blocks height bp want r.success

pub and_then-ExtendsBy :
    (s : Blocks) (height bp : ℕ) (want want' : ℕ → Bool) (next : Blocks → AllocBlocks)
    (r : AllocBlocks)
    → ExtendsBy s height bp want r
    → (r.success ≡ true → ExtendsBy r.blocks height bp want' (next r.blocks))
    → ExtendsBy s height bp (λ b. want b || want' b) (and_then next r)
unfolding and_then
and_then-ExtendsBy s height bp want want' next r x y = elim (Bool-cases r.success) [
  | inl ok ↦ rw ok (
      Extends-Extends s r.blocks _ height bp want want' _
        (subst (λ (b : Bool). Extends s r.blocks height bp want b) ok x) (y ok))
  | inr failed ↦ rw failed (
      Extends-wanted s r.blocks height bp want (λ b. want b || want' b) false
        (λ b lt e. ground (arith, e)) (λ ok. absurd (ground (arith, ok)))
        (subst (λ (b : Bool). Extends s r.blocks height bp want b) failed x))
]
