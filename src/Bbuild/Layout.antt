-- ===== src/Bbuild/Layout.antt =====
-- Blocks of the three sizes on a device, and what the bitmaps that note them have seen.
use pmfs.Base.{
  ℕ, ◌*◌, ◌/◌, ◌≤◌, ◌<◌, ◌^◌, ◌≡◌, ◌≢◌, ◌↔◌, inl, inr, Bool, true, false, ◌&&◌, ltb, leb, arith,
  subst, Bool-cases,
}
use pmfs.Balloc.{SbInfo, BlockType, type_4k, type_2m, type_1g}
use pmfs.Balloc.Spec.{used}
use pmfs.Bbuild.{ScanBitmap, BitmapSizes}
use pmfs.Bbuild.Loop.{Insertable}
use pmfs.Bbuild.Build.{marks, seen, IsScan}
use pmfs.Bbuild.Scan.{bitmap_sizes}
use pmfs.Bbuild.Noted.{noted}

-- how many blocks of 4 KiB a block of the type has, as a power of 2
abbrev pub scale_of : BlockType → ℕ
scale_of type_4k = 0
scale_of type_2m = 9
scale_of type_1g = 18

-- whether block `c` of 4 KiB is a part of one of the blocks `P`, which go by type and number
abbrev pub PartOf : (BlockType → ℕ → Type 0) → ℕ → Type 0
PartOf P c = (t : BlockType) × P t (c / 2 ^ scale_of t)

-- The blocks `P` lie on a device of `block_end` blocks, behind its first `start` blocks, and blocks of
-- two types do not overlap.
pub record IsLayout (P : BlockType → ℕ → Type 0) (start block_end : ℕ) : Type 0 where
  pub behind : (t : BlockType) (c : ℕ) → P t (c / 2 ^ scale_of t) → start ≤ c
  pub on_device : (t : BlockType) (c : ℕ) → P t (c / 2 ^ scale_of t) → c < block_end
  pub apart :
      (t t' : BlockType) (c : ℕ) → P t (c / 2 ^ scale_of t) → P t' (c / 2 ^ scale_of t') → t ≡ t'

-- the size in bytes of the bitmap for a type
abbrev size_of : BitmapSizes → BlockType → ℕ
size_of sizes type_4k = sizes.bitmap_4k_size
size_of sizes type_2m = sizes.bitmap_2m_size
size_of sizes type_1g = sizes.bitmap_1g_size

abbrev marks_of : ScanBitmap → BitmapSizes → BlockType → ℕ → Bool
marks_of bm sizes type_4k = marks bm.bitmap_4k sizes.bitmap_4k_size 0
marks_of bm sizes type_2m = marks bm.bitmap_2m sizes.bitmap_2m_size 9
marks_of bm sizes type_1g = marks bm.bitmap_1g sizes.bitmap_1g_size 18

module _ (P : BlockType → ℕ → Type 0) (bm : ScanBitmap) (start initsize : ℕ) (pos : 0 < start)
    (word : initsize < 2 ^ 64) (layout : IsLayout P start (initsize / 2 ^ 12))
    (bits : (t : BlockType) (b : ℕ) → (noted bm t b ≡ true) ↔ P t b) where
  not_zero : (t : BlockType) → ¬ P t 0
  not_zero type_4k p = absurd (omega (arith, layout.behind type_4k 0 p))
  not_zero type_2m p = absurd (omega (arith, layout.behind type_2m 0 p))
  not_zero type_1g p = absurd (omega (arith, layout.behind type_1g 0 p))

  -- A bit of the bitmap that is not bit 0 is read.
  read_bit :
      (t : BlockType) (q bytes : ℕ)
      → P t q
      → q < bytes * 8
      → (leb 1 q && ltb q (bytes * 8) && noted bm t q) ≡ true
  read_bit t q bytes p lt =
      let ne : q ≢ 0 = λ e. not_zero t (subst (P t) e p) in let set = (bits t q).1 p in ground arith

  -- The bits that stand for a block on the device are in the bitmap, and none is bit 0.
  marks_of_iff :
      (t : BlockType) (c : ℕ)
      → (marks_of bm (bitmap_sizes initsize) t c ≡ true) ↔ P t (c / 2 ^ scale_of t)
  unfolding bitmap_sizes
  marks_of_iff type_4k c = (
    λ h. (bits type_4k (c / 2 ^ 0)).0 (ground arith),
    λ p. read_bit type_4k (c / 2 ^ 0) _ p (omega (arith, layout.on_device type_4k c p)),
  )
  marks_of_iff type_2m c = (
    λ h. (bits type_2m (c / 2 ^ 9)).0 (ground arith),
    λ p. read_bit type_2m (c / 2 ^ 9) _ p (omega (arith, layout.on_device type_2m c p)),
  )
  marks_of_iff type_1g c = (
    λ h. (bits type_1g (c / 2 ^ 18)).0 (ground arith),
    λ p. read_bit type_1g (c / 2 ^ 18) _ p (omega (arith, layout.on_device type_1g c p)),
  )

  -- what the bitmaps have seen is what the blocks are made of
  pub seen_iff : (c : ℕ) → (seen bm (bitmap_sizes initsize) c ≡ true) ↔ PartOf P c
  seen_iff c = (by_bitmap, λ (t, p). to_bitmap t ((marks_of_iff t c).1 p))
    where
      by_bitmap : seen bm (bitmap_sizes initsize) c ≡ true → PartOf P c
      by_bitmap h = elim (Bool-cases (marks_of bm (bitmap_sizes initsize) type_4k c)) [
        | inl e ↦ (type_4k, (marks_of_iff type_4k c).0 e)
        | inr e ↦ elim (Bool-cases (marks_of bm (bitmap_sizes initsize) type_2m c)) [
          | inl f ↦ (type_2m, (marks_of_iff type_2m c).0 f)
          | inr f ↦ (type_1g, (marks_of_iff type_1g c).0 (ground arith))
        ]
      ]

      to_bitmap :
          (t : BlockType)
          → marks_of bm (bitmap_sizes initsize) t c ≡ true
          → seen bm (bitmap_sizes initsize) c ≡ true
      to_bitmap type_4k h = ground arith
      to_bitmap type_2m h = ground arith
      to_bitmap type_1g h = ground arith

  apart_marks :
      (t t' : BlockType) (c : ℕ)
      → t ≢ t'
      → marks_of bm (bitmap_sizes initsize) t c ≡ true
      → marks_of bm (bitmap_sizes initsize) t' c ≡ false
  apart_marks t t' c ne h = elim (Bool-cases (marks_of bm (bitmap_sizes initsize) t' c)) [
    | inl e ↦ absurd (ne (layout.apart t t' c ((marks_of_iff t c).0 h) ((marks_of_iff t' c).0 e)))
    | inr e ↦ e
  ]

  pub seen-IsScan : IsScan bm (bitmap_sizes initsize)
  unfolding bitmap_sizes
  seen-IsScan = record {
    some_4k = omega arith;
    some_2m = omega arith;
    some_1g = omega arith;
    small_4k = omega arith;
    small_2m = omega arith;
    small_1g = omega arith;
    apart_4k = λ c h. ground (
      arith,
      apart_marks type_4k type_2m c (λ e. cc) h,
      apart_marks type_4k type_1g c (λ e. cc) h,
    );
    apart_2m = λ c h. apart_marks type_2m type_1g c (λ e. cc) h;
  }

  pub seen-Insertable :
      (sbi : SbInfo)
      → sbi.block_end ≡ initsize / 2 ^ 12
      → ((c : ℕ) → used sbi.block_inuse_head c ≡ ltb c start)
      → Insertable sbi (seen bm (bitmap_sizes initsize))
  seen-Insertable sbi end below = record {
    is_free =
        λ c h. let (t, p) = (seen_iff c).0 h in rw (below c) (ground (arith, layout.behind t c p));
    on_device = λ c h. let (t, p) = (seen_iff c).0 h in omega (arith, layout.on_device t c p, end);
  }
