-- ===== src/Bbuild/Loop.antt =====
-- The loop of __pmfs_build_blocknode_map: the in-use list gets exactly the blocks of one bitmap.
use pmfs.Base.{
  ℕ, zero, suc, ◌+◌, ◌-◌, ◌*◌, ◌/◌, ◌≤◌, ◌<◌, ◌^◌, ◌≡◌, refl, sym, ◌∙◌, ◌⊎◌, inl, inr, Bool, true,
  false, ◌&&◌, ◌||◌, ◌==◌, some, arith, ltb, leb, subst, Bool-cases, ℕ_discrete,
}
use pmfs.Base.Words.{add64, sub64, sub64-eq-sub}
use pmfs.Balloc.{SbInfo, allocated, enospc}
use pmfs.Balloc.Spec.{used, total, in_run, IsValid}
use pmfs.Bbuild.{
  Bitmap, FindNext, IsFindNext, shift_left, insert_blocknode_map, inserted_state, build_from,
}
use pmfs.Bbuild.Insert.{IsFree, Extended, insert_blocknode_map-Extended}
use pmfs.Bbuild.Runs.{marked, in_run-bits, bit-split, power_pos, run_end, run_bounds, shift_left-eq}

-- The state `sbi'` is `sbi` with the blocks of `new` in use too.
pub record Built (sbi sbi' : SbInfo) (new : ℕ → Bool) : Type 0 where
  pub valid : IsValid sbi'
  pub same_end : sbi'.block_end ≡ sbi.block_end
  pub used_after : (c : ℕ) → used sbi'.block_inuse_head c ≡ (used sbi.block_inuse_head c || new c)
  -- the free counter has fallen by the number of these blocks
  pub balance :
      add64 sbi'.num_free_blocks (total sbi'.block_inuse_head)
      ≡ add64 sbi.num_free_blocks (total sbi.block_inuse_head)

-- The blocks of `new` are free, and on the device.
pub record Insertable (sbi : SbInfo) (new : ℕ → Bool) : Type 0 where
  pub is_free : (c : ℕ) → new c ≡ true → used sbi.block_inuse_head c ≡ false
  pub on_device : (c : ℕ) → new c ≡ true → c < sbi.block_end

Built-none :
    (sbi : SbInfo) (new : ℕ → Bool) → IsValid sbi → ((c : ℕ) → new c ≡ false) → Built sbi sbi new
Built-none sbi new v none_new = record {
  valid = v;
  same_end = refl;
  used_after = λ c. ground (arith, none_new c);
  balance = refl;
}

Built-run :
    (sbi sbi' sbi'' : SbInfo) (low n : ℕ) (later new : ℕ → Bool)
    → sbi.block_end < 2 ^ 63
    → Extended sbi sbi' low n
    → Built sbi' sbi'' later
    → ((c : ℕ) → new c ≡ (in_run low n c || later c))
    → Built sbi sbi'' new
unfolding add64 sub64
Built-run sbi sbi' sbi'' low n later new small x b e = record {
  valid = b.valid;
  same_end = b.same_end ∙ x.same_end;
  used_after = λ c. ground (arith, b.used_after c, x.used_after c, e c);
  balance = omega (arith, b.balance, x.total_after, x.free_after, x.fits);
}

-- What is left to insert after a run.
later_Insertable :
    (sbi sbi' : SbInfo) (low n : ℕ) (later new : ℕ → Bool)
    → Extended sbi sbi' low n
    → ((c : ℕ) → later c ≡ true → in_run low n c ≡ false)
    → ((c : ℕ) → new c ≡ (in_run low n c || later c))
    → Insertable sbi new
    → Insertable sbi' later
later_Insertable sbi sbi' low n later new x apart split ok = record {
  is_free = λ c h. ground (arith, x.used_after c, ok.is_free c, apart c h, split c);
  on_device = λ c h. ground (arith, x.same_end, ok.on_device c, split c);
}

module _ {find_next_bit find_next_zero_bit : FindNext} (set : IsFindNext true find_next_bit)
    (clear : IsFindNext false find_next_zero_bit) (bitmap : Bitmap) (size scale : ℕ)
    (small : size * 2 ^ scale < 2 ^ 64) where
  -- one run: the bits `low .. next - 1`
  insert_run :
      (sbi : SbInfo) (from low next : ℕ)
      → IsValid sbi
      → used sbi.block_inuse_head 0 ≡ true
      → from ≤ low
      → low < next
      → next ≤ size
      → ((b : ℕ) → low ≤ b → b < next → bitmap b ≡ true)
      → Insertable sbi (marked bitmap size scale from)
      → (sbi' : SbInfo) × (insert_blocknode_map true sbi
            (shift_left low scale)
            (sub64 (shift_left next scale) 1)
          ≡ allocated sbi' (low * 2 ^ scale))
        × Extended sbi sbi' (low * 2 ^ scale) ((next - low) * 2 ^ scale)
  insert_run sbi from low next v h0 h l le run new =
      let n : ℕ = (next - low) * 2 ^ scale in
      let bounds = run_bounds low next size (2 ^ scale) l le (power_pos scale) small in
      let sum : low * 2 ^ scale + n ≡ next * 2 ^ scale =
        run_end low next (2 ^ scale) (omega arith) in
      let end_eq : sub64 (next * 2 ^ scale) 1 ≡ low * 2 ^ scale + n - 1 =
        sub64-eq-sub (next * 2 ^ scale) 1 (omega arith) bounds.1 ∙ omega arith in
      let in_new : (c : ℕ)
          → in_run (low * 2 ^ scale) n c ≡ true
          → marked bitmap size scale from c ≡ true =
        λ c r.
          new_run sbi from low next h l le run c
            (sym (in_run-bits low next scale c (omega arith)) ∙ r) in
      rw
        (
          shift_left-eq low size scale (omega arith) small,
          shift_left-eq next size scale le small,
          end_eq,
        )
        (by_insertion (low * 2 ^ scale) n bounds.0
          (insert_blocknode_map-Extended sbi (low * 2 ^ scale) n v bounds.0 (omega arith) h0)
          (λ c r. new.is_free c (in_new c r)) (λ c r. new.on_device c (in_new c r)))
    where
      new_run :
          (sbi : SbInfo) (from low next : ℕ)
          → from ≤ low
          → low < next
          → next ≤ size
          → ((b : ℕ) → low ≤ b → b < next → bitmap b ≡ true)
          → (c : ℕ) → (leb low (c / 2 ^ scale) && ltb (c / 2 ^ scale) next) ≡ true
          → marked bitmap size scale from c ≡ true
      new_run sbi from low next h l le run c r = ground (arith, run (c / 2 ^ scale))

      by_insertion :
          (low n : ℕ)
          → 0 < n
          → ((sbi' : SbInfo) × (insert_blocknode_map true sbi low (low + n - 1)
                ≡ allocated sbi' low)
              × Extended sbi sbi' low n)
            ⊎ ((insert_blocknode_map true sbi low (low + n - 1) ≡ enospc)
                × ¬ (IsFree sbi.block_inuse_head low n × (low + n ≤ sbi.block_end)))
          → IsFree sbi.block_inuse_head low n
          → ((c : ℕ) → in_run low n c ≡ true → c < sbi.block_end)
          → (sbi' : SbInfo) × (insert_blocknode_map true sbi low (low + n - 1) ≡ allocated sbi' low)
            × Extended sbi sbi' low n
      by_insertion low n pos (inl found) free inside = found
      by_insertion low n pos (inr failed) free inside =
          absurd (failed.1 (free, ground (arith, inside (low + n - 1))))

  -- a bitmap with no set bit left
  none_left :
      (from low c : ℕ)
      → low ≡ size
      → (from ≤ c / 2 ^ scale → c / 2 ^ scale < low → bitmap (c / 2 ^ scale) ≡ false)
      → marked bitmap size scale from c ≡ false
  none_left from low c e passed = ground arith

  -- the bits `low .. next - 1` are set, and the first that are from `from` on
  record FirstRun (from low next : ℕ) : Type 0 where
    after : from ≤ low
    not_empty : low < next
    inside : next ≤ size
    all_set : (b : ℕ) → low ≤ b → b < next → bitmap b ≡ true
    split :
        (c : ℕ)
        → marked bitmap size scale from c ≡ (
            in_run (low * 2 ^ scale) ((next - low) * 2 ^ scale) c
            || marked bitmap size scale next c)
    apart :
        (c : ℕ)
        → marked bitmap size scale next c ≡ true
        → in_run (low * 2 ^ scale) ((next - low) * 2 ^ scale) c ≡ false

  to_FirstRun :
      (from low next : ℕ)
      → from ≤ low
      → low < next
      → next ≤ size
      → ((b : ℕ) → from ≤ b → b < low → bitmap b ≡ false)
      → ((b : ℕ) → low ≤ b → b < next → bitmap b ≡ true)
      → FirstRun from low next
  to_FirstRun from low next h l le passed run = record {
    after = h;
    not_empty = l;
    inside = le;
    all_set = run;
    split = λ c. rw (in_run-bits low next scale c (omega arith)) (
        bit-split bitmap size from low next (c / 2 ^ scale) h (omega arith) le
          (passed (c / 2 ^ scale)) (run (c / 2 ^ scale)));
    apart = λ c m. rw (in_run-bits low next scale c (omega arith)) (ground arith);
  }

  find-FirstRun :
      (from low : ℕ)
      → from ≤ size
      → low ≡ find_next_bit bitmap size from
      → low < size
      → FirstRun from low (find_next_zero_bit bitmap size low)
  find-FirstRun from low le e lt =
      let next : ℕ = find_next_zero_bit bitmap size low in
      let first : bitmap low ≡ true = rw e (set.found bitmap size from le (rw (sym e) lt)) in
      let run : (b : ℕ) → low ≤ b → b < next → bitmap b ≡ true =
        λ b. clear.passed bitmap size low b (omega arith) in
      to_FirstRun from low next (rw e (set.at_least bitmap size from le))
        (run_not_empty next first (clear.at_least bitmap size low (omega arith))
          (clear.found bitmap size low (omega arith)))
        (clear.at_most bitmap size low (omega arith))
        (λ b h k. set.passed bitmap size from b le h (rw (sym e) k)) run
    where
      both : {b : Bool} → b ≡ true → ¬ (b ≡ false)
      both h k = ground arith

      run_not_empty :
          (next : ℕ)
          → bitmap low ≡ true
          → low ≤ next
          → (next < size → bitmap next ≡ false)
          → low < next
      run_not_empty next first ge stop = elim (ℕ_discrete low next) [
        | yes p ↦
            absurd (both first (subst (λ (b : ℕ). bitmap b ≡ false) (sym p) (stop (omega arith))))
        | no p ↦ omega arith
      ]

  -- A run inserted, and then the bits behind it.
  FirstRun-Built :
      {sbi sbi' sbi'' : SbInfo} {from low next : ℕ}
      → IsValid sbi
      → FirstRun from low next
      → Extended sbi sbi' (low * 2 ^ scale) ((next - low) * 2 ^ scale)
      → Built sbi' sbi'' (marked bitmap size scale next)
      → Built sbi sbi'' (marked bitmap size scale from)
  FirstRun-Built {sbi} {sbi'} {sbi''} v r x b = Built-run sbi sbi' sbi'' _ _ _ _ v.small x b r.split

  pub build_from-Built :
      (fuel from : ℕ) (sbi : SbInfo)
      → IsValid sbi
      → used sbi.block_inuse_head 0 ≡ true
      → from ≤ size
      → size < fuel + from
      → Insertable sbi (marked bitmap size scale from)
      → (sbi' : SbInfo) × (build_from find_next_bit find_next_zero_bit true bitmap size scale fuel
            from sbi
          ≡ some sbi')
        × Built sbi sbi' (marked bitmap size scale from)
  unfolding build_from inserted_state
  build_from-Built zero from sbi v h0 le enough new = absurd (omega arith)
  build_from-Built (suc fuel) from sbi v h0 le enough new =
      let low : ℕ = find_next_bit bitmap size from in
      let next : ℕ = find_next_zero_bit bitmap size low in
      elim (Bool-cases (low == size)) [
        | inl e ↦ rw e (
          sbi,
          refl,
          Built-none sbi (marked bitmap size scale from) v λ c.
              none_left from low c (ground arith) (set.passed bitmap size from (c / 2 ^ scale) le),
        )
        | inr e ↦
            let r =
              find-FirstRun from low le refl (ground (arith, set.at_most bitmap size from le)) in
            let (sbi', found, x) =
              insert_run sbi from low next v h0 r.after r.not_empty r.inside r.all_set new in
            let new' =
              later_Insertable sbi sbi' (low * 2 ^ scale) ((next - low) * 2 ^ scale)
                (marked bitmap size scale next) (marked bitmap size scale from) x r.apart r.split
                new in
            elim (Bool-cases (next == size)) [
              | inl f ↦
                  rw (e, found, f)
                    (
                      sbi',
                      refl,
                      FirstRun-Built v r x (
                          Built-none sbi' (marked bitmap size scale next) x.valid
                            λ c. ground arith),
                    )
              | inr f ↦
                  let (sbi'', done, b) =
                    build_from-Built fuel next sbi' x.valid (ground (arith, x.used_after 0))
                      r.inside (omega (arith, r.after, r.not_empty)) new' in
                  rw (e, found, f) (sbi'', done, FirstRun-Built v r x b)
            ]
      ]
