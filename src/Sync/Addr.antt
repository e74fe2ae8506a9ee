-- ===== src/Sync/Addr.antt =====
-- alloc_addr_info: which blocks and inodes its callers get.
use pmfs.Base.{
  ℕ, zero, suc, ◌+◌, ◌*◌, ◌%◌, ◌^◌, ◌≤◌, ◌<◌, ◌≡◌, ◌≢◌, refl, sym, ◌∙◌, inl, inr, Bool, true, false,
  Option, none, some, List, [], ◌∷◌, arith, ltb, ◌==◌, if◌then◌else◌, length, drop, Bool-cases,
  subst,
}
use pmfs.Base.Words.{add64-eq-add}
use pmfs.Inodes.{
  Inode, Table, scan_free, increase_table, successful, created, take_inode, insert_inode,
  found_free, new_inode,
}
use pmfs.Inodes.Search.{free_at, free_at-drop}
use pmfs.Sync.{
  AddrInfo, State, grow_table, set_inode_base, advance, Handed, hand_out, alloc_addr_info,
}

-- The loop ends: each turn brings inodes, and there is a turn for each that is missing.
grow_table_enough :
    (per_block fuel num_inodes : ℕ) (s : Table)
    → 0 < per_block
    → 0 < fuel
    → s.s_free_inodes_count + fuel * per_block < 2 ^ 32
    → num_inodes < s.s_free_inodes_count + fuel
    → (s' : Table) × (grow_table per_block true fuel num_inodes s ≡ some s')
      × (num_inodes ≤ s'.s_free_inodes_count)
unfolding grow_table increase_table
grow_table_enough per_block zero num_inodes s pos turns small enough = absurd (omega arith)
grow_table_enough per_block (suc fuel) num_inodes s pos turns small enough =
    let product : suc fuel * per_block ≡ per_block + fuel * per_block = grind arith in
    elim (Bool-cases (ltb s.s_free_inodes_count num_inodes)) [
      | inl e ↦
          let grown : (increase_table per_block s).s_free_inodes_count
              ≡ s.s_free_inodes_count + per_block =
            omega arith in
          rw e (
            grow_table_enough per_block fuel num_inodes (increase_table per_block s) pos
              (ground arith) (omega (arith, grown)) (omega (arith, grown)))
      | inr e ↦ rw e (s, refl, ground arith)
    ]

-- With at least one inode to a block of the table, room for the table to grow, and a count of free
-- inodes that stays below 2 ^ 32 when the table grows by a block for every inode asked for and one
-- more, `alloc_addr_info` returns: one turn of its loop for every inode asked for, and one more, is
-- enough.
pub alloc_addr_info_enough :
    (per_block num_inodes : ℕ) (s : State)
    → 0 < per_block
    → s.table.s_free_inodes_count + (num_inodes + 1) * per_block < 2 ^ 32
    → (h : Handed) × (alloc_addr_info per_block true (num_inodes + 1) num_inodes s ≡ some h)
unfolding alloc_addr_info hand_out set_inode_base
alloc_addr_info_enough per_block num_inodes s pos small =
    let (s', e, enough) =
      grow_table_enough per_block (num_inodes + 1) num_inodes s.table pos (omega arith) small
        (omega arith) in
    elim (Bool-cases (s.super.u_free_inode_base == 0)) [
      | inl b ↦ rw (e, b) (_, refl)
      | inr b ↦ rw (e, b) (_, refl)
    ]

-- A table with enough free inodes is left as it is.
grow_table_same :
    (per_block : ℕ) (room : Bool) (fuel num_inodes : ℕ) (s : Table)
    → num_inodes ≤ s.s_free_inodes_count
    → grow_table per_block room (suc fuel) num_inodes s ≡ some s
unfolding grow_table
grow_table_same per_block room fuel num_inodes s le =
    let e : ltb s.s_free_inodes_count num_inodes ≡ false = ground arith in rw e refl

scan_free_first : (i : ℕ) (l : List Inode) → free_at l 0 ≡ true → scan_free i l ≡ some i
unfolding scan_free free_at
scan_free_first i [] f = absurd (ground arith)
scan_free_first i (pi ∷ l) f = rw f refl

new_inode_hint :
    (mode per_block : ℕ) (room : Bool) (s : Table)
    → s.s_free_inode_hint ≤ length s.inodes
    → free_at s.inodes s.s_free_inode_hint ≡ true
    → new_inode mode per_block (successful room) s
      ≡ created (take_inode mode s s.s_free_inode_hint) s.s_free_inode_hint
unfolding new_inode found_free insert_inode
new_inode_hint mode per_block room s le f =
    let same : s.s_free_inode_hint + 0 ≡ s.s_free_inode_hint = omega arith in
    rw
      (scan_free_first s.s_free_inode_hint (drop s.s_free_inode_hint s.inodes)
        (free_at-drop s.s_free_inode_hint 0 s.inodes le ∙ rw same f))
      refl

-- The first call, for `num_inodes` inodes on a table with as many free ones and a hint of at most
-- `num_inodes + 1`, hands out inode offsets from the hint's on. If inode `num_inodes + 1` of the table is
-- free, the next `new_inode` whose calls succeed takes it, though it is one of these.
pub alloc_addr_info-new_inode :
    (mode per_block num_inodes : ℕ) (room room' : Bool) (s : State)
    → s.super.u_free_inode_base ≡ 0
    → num_inodes ≤ s.table.s_free_inodes_count
    → num_inodes < 2 ^ 24
    → 1 < s.table.s_free_inode_hint
    → s.table.s_free_inode_hint ≤ num_inodes + 1
    → num_inodes + 1 < length s.table.inodes
    → free_at s.table.inodes (num_inodes + 1) ≡ true
    → (h : Handed) × (alloc_addr_info per_block room 1 num_inodes s ≡ some h)
      × (new_inode mode per_block (successful room') h.state.table
          ≡ created (take_inode mode h.state.table (num_inodes + 1)) (num_inodes + 1))
      × (h.info.u_free_inode_base ≤ (num_inodes + 1) * 2 ^ 7)
      × ((num_inodes + 1) * 2 ^ 7 < h.info.u_free_inode_base + num_inodes * 2 ^ 7)
unfolding alloc_addr_info hand_out set_inode_base
alloc_addr_info-new_inode mode per_block num_inodes room room' s first many few low high inside f =
    let same : (num_inodes + 1) % 2 ^ 32 ≡ num_inodes + 1 = omega arith in
    let table : Table = record s.table { s_free_inode_hint = num_inodes + 1 } in
    rw (grow_table_same per_block room 0 num_inodes s.table many, first, same)
      (_, refl, new_inode_hint mode per_block room' table (omega arith) f, omega arith, omega arith)

-- `n` calls in a row
pub data Calls (per_block : ℕ) (room : Bool) : ℕ → State → State → Type 0 where
  no_calls : (s : State) → Calls per_block room 0 s s
  call_then :
      (n fuel num_inodes : ℕ) (s s' : State) (h : Handed)
      → alloc_addr_info per_block room fuel num_inodes s ≡ some h
      → Calls per_block room n h.state s'
      → Calls per_block room (suc n) s s'

-- The addresses of `v` lie `n` ranges behind those of `u`, the base of the inodes 100 * `n`.
pub record Ahead (n : ℕ) (u v : AddrInfo) : Type 0 where
  pub nvm : v.nvm_block_addr ≡ u.nvm_block_addr + n * 524288
  pub ssd1 : v.ssd1_block_addr ≡ u.ssd1_block_addr + n * 1048576
  pub ssd2 : v.ssd2_block_addr ≡ u.ssd2_block_addr + n * 1048576
  pub ssd3 : v.ssd3_block_addr ≡ u.ssd3_block_addr + n * 1048576
  pub base : v.u_free_inode_base ≡ u.u_free_inode_base + n * 100

-- The addresses are not yet 0 again after `n` calls, and there are a first block and a first inode.
pub record IsSmall (n : ℕ) (u : AddrInfo) : Type 0 where
  pub nvm : u.nvm_block_addr + n * 524288 < 2 ^ 64
  pub ssd1 : u.ssd1_block_addr + n * 1048576 < 2 ^ 64
  pub ssd2 : u.ssd2_block_addr + n * 1048576 < 2 ^ 64
  pub ssd3 : u.ssd3_block_addr + n * 1048576 < 2 ^ 64
  pub base : u.u_free_inode_base + n * 100 < 2 ^ 64

advance-Ahead :
    (n : ℕ) (u v : AddrInfo) → IsSmall (suc n) u → Ahead n u v → Ahead (suc n) u (advance v)
unfolding advance
advance-Ahead n u v small a = record {
  nvm =
      add64-eq-add v.nvm_block_addr 524288 (omega (arith, a.nvm, small.nvm)) ∙ omega (arith, a.nvm);
  ssd1 =
      add64-eq-add v.ssd1_block_addr 1048576 (omega (arith, a.ssd1, small.ssd1))
      ∙ omega (arith, a.ssd1);
  ssd2 =
      add64-eq-add v.ssd2_block_addr 1048576 (omega (arith, a.ssd2, small.ssd2))
      ∙ omega (arith, a.ssd2);
  ssd3 =
      add64-eq-add v.ssd3_block_addr 1048576 (omega (arith, a.ssd3, small.ssd3))
      ∙ omega (arith, a.ssd3);
  base =
      add64-eq-add v.u_free_inode_base 100 (omega (arith, a.base, small.base))
      ∙ omega (arith, a.base);
}

-- What a call leaves, and what it hands out when it is not the first.
abbrev CalledBy : State → Option Handed → Type 0
CalledBy s none = Unit
CalledBy s (some h) =
    (h.state.super ≡ advance h.info)
    × (s.super.nvm_block_addr ≢ 0 → s.super.u_free_inode_base ≢ 0 → h.info ≡ s.super)

first_CalledBy :
    (s : State) (o : Option State) → s.super.u_free_inode_base ≡ 0 → CalledBy s (hand_out o)
unfolding hand_out
first_CalledBy s none none_yet = tt
first_CalledBy s (some s') none_yet = (refl, λ nvm base. absurd (base none_yet))

alloc_addr_info-CalledBy :
    (per_block : ℕ) (room : Bool) (fuel num_inodes : ℕ) (s : State)
    → CalledBy s (alloc_addr_info per_block room fuel num_inodes s)
unfolding alloc_addr_info hand_out
alloc_addr_info-CalledBy per_block room fuel num_inodes s =
    elim (Bool-cases (s.super.u_free_inode_base == 0)) [
      | inl e ↦ rw e (first_CalledBy s _ (ground arith))
      | inr e ↦ rw e (refl, λ nvm base. later nvm)
    ]
  where
    later :
        s.super.nvm_block_addr ≢ 0
        → (record s.super {
          nvm_block_addr =
              if s.super.nvm_block_addr == 0 then 1024 * 1024 else s.super.nvm_block_addr;
        })
          ≡ s.super
    later ne = let e : (s.super.nvm_block_addr == 0) ≡ false = ground arith in rw e refl

IsSmall-le : (k n : ℕ) (u : AddrInfo) → k ≤ n → IsSmall n u → IsSmall k u
IsSmall-le k n u le small = record {
  nvm = omega (arith, small.nvm);
  ssd1 = omega (arith, small.ssd1);
  ssd2 = omega (arith, small.ssd2);
  ssd3 = omega (arith, small.ssd3);
  base = omega (arith, small.base);
}

module _ (per_block : ℕ) (room : Bool) where
  -- A call behind the first hands out what stands in the super block.
  later_call :
      (k fuel num_inodes : ℕ) (u : AddrInfo) (s : State) (h : Handed)
      → Ahead (suc k) u s.super
      → alloc_addr_info per_block room fuel num_inodes s ≡ some h
      → (h.state.super ≡ advance h.info) × (h.info ≡ s.super)
  later_call k fuel num_inodes u s h a e =
      let c = subst (CalledBy s) e (alloc_addr_info-CalledBy per_block room fuel num_inodes s) in
      (c.0, c.1 (λ z. omega (arith, a.nvm, z)) (λ z. omega (arith, a.base, z)))

  Calls-Ahead :
      (n k : ℕ) (u : AddrInfo) (s s' : State)
      → IsSmall (suc k + n) u
      → Ahead (suc k) u s.super
      → Calls per_block room n s s'
      → Ahead (suc k + n) u s'.super
  Calls-Ahead n k u s s' small a (no_calls _) = subst (λ (m : ℕ). Ahead m u s.super) (omega arith) a
  Calls-Ahead n k u s s' small a (call_then n' fuel num_inodes _ _ h e calls) =
      let c = later_call k fuel num_inodes u s h a e in
      let next : Ahead (suc (suc k)) u h.state.super =
        rw (c.0, c.1)
          (advance-Ahead (suc k) u s.super (IsSmall-le (suc (suc k)) _ u (omega arith) small) a) in
      let sum : suc (suc k) + n' ≡ suc k + suc n' = omega arith in
      subst (λ (m : ℕ). Ahead m u s'.super) sum
        (Calls-Ahead n' (suc k) u h.state s' (IsSmall-le _ _ u (omega arith) small) next calls)

  -- In any sequence of calls, the ranges of 524288 blocks of the first device and of 1048576 blocks of
  -- the others that two callers get are as many ranges apart as there are calls from the one to the
  -- other, as long as the addresses stay below 2 ^ 64; the bases of their inodes are 100 apart for each
  -- of these calls, however many inodes are asked for.
  pub alloc_addr_info-Ahead :
      (n fuel fuel' num_inodes num_inodes' : ℕ) (s s' : State) (h h' : Handed)
      → alloc_addr_info per_block room fuel num_inodes s ≡ some h
      → Calls per_block room n h.state s'
      → alloc_addr_info per_block room fuel' num_inodes' s' ≡ some h'
      → IsSmall (suc n) h.info
      → Ahead (suc n) h.info h'.info
  alloc_addr_info-Ahead n fuel fuel' num_inodes num_inodes' s s' h h' e calls e' small =
      let c = subst (CalledBy s) e (alloc_addr_info-CalledBy per_block room fuel num_inodes s) in
      let here : Ahead 0 h.info h.info = record {
        nvm = omega arith;
        ssd1 = omega arith;
        ssd2 = omega arith;
        ssd3 = omega arith;
        base = omega arith;
      } in
      let one : Ahead 1 h.info h.state.super =
        rw c.0 (advance-Ahead 0 h.info h.info (IsSmall-le 1 (suc n) _ (omega arith) small) here) in
      let sum : suc n ≡ 1 + n = omega arith in
      let small' = subst (λ (m : ℕ). IsSmall m h.info) sum small in
      let a : Ahead (suc n) h.info s'.super =
        subst (λ (m : ℕ). Ahead m h.info s'.super) (sym sum)
          (Calls-Ahead n 0 h.info h.state s' small' one calls) in
      rw (later_call n fuel' num_inodes' h.info s' h' a e').1 a
