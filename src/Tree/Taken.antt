-- ===== src/Tree/Taken.antt =====
-- What a block that the allocator hands out means for a device.
use pmfs.Base.{ℕ, ◌*◌, ◌/◌, ◌%◌, ◌^◌, ◌<◌, ◌≡◌, ◌≢◌, true, false, arith, subst}
use pmfs.Balloc.{SbInfo}
use pmfs.Balloc.Spec.{used}
use pmfs.Balloc.Alloc.{NewRun}
use pmfs.Tree.{get_block_off}
use pmfs.Tree.Extend.{IsDevice}

-- What a block that is handed out means for a device.
pub record Taken (sbi sbi' : SbInfo) (off : ℕ) : Type 0 where
  pub device : IsDevice sbi'
  pub more : (x : ℕ) → used sbi.block_inuse_head x ≡ true → used sbi'.block_inuse_head x ≡ true
  pub was_free : used sbi.block_inuse_head (off / 4096) ≡ false
  pub now_used : used sbi'.block_inuse_head (off / 4096) ≡ true
  pub not_zero : off ≢ 0

pub NewRun-Taken :
    (sbi sbi' : SbInfo) (n b : ℕ)
    → IsDevice sbi
    → 0 < n
    → NewRun sbi sbi' n b
    → Taken sbi sbi' (get_block_off b)
unfolding get_block_off
NewRun-Taken sbi sbi' n b d pos r =
    let offset : b * 4096 % 2 ^ 64 ≡ b * 4096 = omega (arith, r.hole.fits, d.small) in
    let number : b * 4096 / 4096 ≡ b = omega arith in
    let free : used sbi.block_inuse_head b ≡ false = r.hole.is_free b (ground arith) in
    let taken : used sbi'.block_inuse_head b ≡ true = ground (arith, r.used_after b) in
    let first : b ≢ 0 = λ e.
      ground (arith, d.super_used, subst (λ (x : ℕ). used sbi.block_inuse_head x ≡ false) e free) in
    record {
      device = record {
        valid = r.valid;
        small = omega (arith, r.same_end, d.small);
        super_used = ground (arith, r.used_after 0, d.super_used);
      };
      more = λ x u. ground (arith, r.used_after x, u);
      was_free = rw (offset, number) free;
      now_used = rw (offset, number) taken;
      not_zero = rw offset (λ e. first (omega arith));
    }
