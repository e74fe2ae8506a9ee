-- ===== src/Bbuild/Build.antt =====
-- pmfs_build_blocknode_map: the in-use list gets exactly the blocks of the bitmaps.
use pmfs.Base.{ℕ, ◌*◌, ◌<◌, ◌^◌, ◌≡◌, refl, ◌∙◌, Bool, true, false, ◌||◌, some, arith}
use pmfs.Balloc.{SbInfo}
use pmfs.Balloc.Spec.{used, IsValid}
use pmfs.Bbuild.{
  Bitmap, FindNext, IsFindNext, build_bitmap, build_blocknode_map, then_build, ScanBitmap,
  BitmapSizes,
}
use pmfs.Bbuild.Runs.{marked}
use pmfs.Bbuild.Loop.{Built, Insertable, build_from-Built}

-- the blocks that a bitmap of `bytes` bytes stands for; bit 0 is left out
abbrev pub marks : Bitmap → (bytes scale : ℕ) → ℕ → Bool
marks bitmap bytes scale = marked bitmap (bytes * 8) scale 1

-- whether the scan has noted block `c`
abbrev pub seen : ScanBitmap → BitmapSizes → ℕ → Bool
seen bm sizes c =
    marks bm.bitmap_4k sizes.bitmap_4k_size 0 c
    || marks bm.bitmap_2m sizes.bitmap_2m_size 9 c
    || marks bm.bitmap_1g sizes.bitmap_1g_size 18 c

-- No bitmap is empty, their blocks have 64-bit numbers, and no two bitmaps note the same block.
pub record IsScan (bm : ScanBitmap) (sizes : BitmapSizes) : Type 0 where
  pub some_4k : 0 < sizes.bitmap_4k_size
  pub some_2m : 0 < sizes.bitmap_2m_size
  pub some_1g : 0 < sizes.bitmap_1g_size
  pub small_4k : sizes.bitmap_4k_size * 8 * 2 ^ 0 < 2 ^ 64
  pub small_2m : sizes.bitmap_2m_size * 8 * 2 ^ 9 < 2 ^ 64
  pub small_1g : sizes.bitmap_1g_size * 8 * 2 ^ 18 < 2 ^ 64
  pub apart_4k :
      (c : ℕ)
      → marks bm.bitmap_4k sizes.bitmap_4k_size 0 c ≡ true
      → (marks bm.bitmap_2m sizes.bitmap_2m_size 9 c
          || marks bm.bitmap_1g sizes.bitmap_1g_size 18 c)
        ≡ false
  pub apart_2m :
      (c : ℕ)
      → marks bm.bitmap_2m sizes.bitmap_2m_size 9 c ≡ true
      → marks bm.bitmap_1g sizes.bitmap_1g_size 18 c ≡ false

Insertable-part :
    (sbi : SbInfo) (all part : ℕ → Bool)
    → ((c : ℕ) → part c ≡ true → all c ≡ true)
    → Insertable sbi all
    → Insertable sbi part
Insertable-part sbi all part sub ok = record {
  is_free = λ c h. ok.is_free c (sub c h);
  on_device = λ c h. ok.on_device c (sub c h);
}

-- What one bitmap has put in use does not stand in the way of another's blocks.
Insertable-next :
    (sbi sbi' : SbInfo) (done next : ℕ → Bool)
    → Built sbi sbi' done
    → ((c : ℕ) → done c ≡ true → next c ≡ false)
    → Insertable sbi next
    → Insertable sbi' next
Insertable-next sbi sbi' done next b apart ok = record {
  is_free = λ c h. ground (arith, b.used_after c, ok.is_free c h, apart c);
  on_device = λ c h. ground (arith, b.same_end, ok.on_device c h);
}

Built-Built :
    (sbi sbi' sbi'' : SbInfo) (one two both : ℕ → Bool)
    → Built sbi sbi' one
    → Built sbi' sbi'' two
    → ((c : ℕ) → both c ≡ (one c || two c))
    → Built sbi sbi'' both
Built-Built sbi sbi' sbi'' one two both b b' e = record {
  valid = b'.valid;
  same_end = b'.same_end ∙ b.same_end;
  used_after = λ c. ground (arith, b.used_after c, b'.used_after c, e c);
  balance = b'.balance ∙ b.balance;
}

module _ {find_next_bit find_next_zero_bit : FindNext} (set : IsFindNext true find_next_bit)
    (clear : IsFindNext false find_next_zero_bit) where
  build_bitmap-Built :
      (bitmap : Bitmap) (bytes scale : ℕ) (sbi : SbInfo)
      → 0 < bytes
      → bytes * 8 * 2 ^ scale < 2 ^ 64
      → IsValid sbi
      → used sbi.block_inuse_head 0 ≡ true
      → Insertable sbi (marks bitmap bytes scale)
      → (sbi' : SbInfo) × (build_bitmap find_next_bit find_next_zero_bit true bitmap
            (bytes * 8)
            scale
            sbi
          ≡ some sbi')
        × Built sbi sbi' (marks bitmap bytes scale)
  unfolding build_bitmap
  build_bitmap-Built bitmap bytes scale sbi pos small v h0 new =
      build_from-Built set clear bitmap (bytes * 8) scale small (bytes * 8) 1 sbi v h0 (omega arith)
        (omega arith) new

  -- With memory for nodes and the two search functions as documented, in a valid state with block 0 in use, and for bitmaps that are not empty,
  -- note no block twice and note only free blocks of the device, with 64-bit numbers,
  -- `build_blocknode_map` ends. Afterwards the state is valid, the blocks in use are those of before
  -- and those that the bitmaps note, each bitmap's bit 0 apart, and the sum of the free counter and
  -- the count of blocks in use is the same (as 64-bit numbers).
  pub build_blocknode_map-Built :
      (bm : ScanBitmap) (sizes : BitmapSizes) (sbi : SbInfo)
      → IsScan bm sizes
      → IsValid sbi
      → used sbi.block_inuse_head 0 ≡ true
      → Insertable sbi (seen bm sizes)
      → (sbi' : SbInfo) × (build_blocknode_map find_next_bit find_next_zero_bit true bm sizes sbi
          ≡ some sbi')
        × Built sbi sbi' (seen bm sizes)
  unfolding build_blocknode_map then_build
  build_blocknode_map-Built bm sizes sbi s v h0 new =
      let m4 = marks bm.bitmap_4k sizes.bitmap_4k_size 0 in
      let m2 = marks bm.bitmap_2m sizes.bitmap_2m_size 9 in
      let m1 = marks bm.bitmap_1g sizes.bitmap_1g_size 18 in
      let (sbi4, e4, b4) =
        build_bitmap-Built bm.bitmap_4k sizes.bitmap_4k_size 0 sbi s.some_4k s.small_4k v h0
          (Insertable-part sbi (seen bm sizes) m4 (λ c h. ground arith) new) in
      let (sbi2, e2, b2) =
        build_bitmap-Built bm.bitmap_2m sizes.bitmap_2m_size 9 sbi4 s.some_2m s.small_2m b4.valid
          (ground (arith, b4.used_after 0))
          (Insertable-next sbi sbi4 m4 m2 b4 (λ c h. ground (arith, s.apart_4k c))
            (Insertable-part sbi (seen bm sizes) m2 (λ c h. ground arith) new)) in
      let two : ℕ → Bool = λ c. m4 c || m2 c in
      let b42 = Built-Built sbi sbi4 sbi2 m4 m2 two b4 b2 (λ c. refl) in
      let (sbi1, e1, b1) =
        build_bitmap-Built bm.bitmap_1g sizes.bitmap_1g_size 18 sbi2 s.some_1g s.small_1g b2.valid
          (ground (arith, b42.used_after 0))
          (Insertable-next sbi sbi2 two m1 b42 (λ c h. ground (arith, s.apart_4k c, s.apart_2m c))
            (Insertable-part sbi (seen bm sizes) m1 (λ c h. ground arith) new)) in
      rw (e4, e2)
        (sbi1, e1, Built-Built sbi sbi2 sbi1 two m1 (seen bm sizes) b42 b1 (λ c. ground arith))
