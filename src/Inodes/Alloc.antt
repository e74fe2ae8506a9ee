-- ===== src/Inodes/Alloc.antt =====
-- pmfs_new_inode and pmfs_free_inode: which inode is taken or freed, and that the hint stays good.
use pmfs.Base.{
  ◌⊎◌, ℕ, ◌+◌, ◌-◌, ◌%◌, ◌^◌, ◌≤◌, ◌<◌, ◌≡◌, refl, ◌∙◌, Bool, true, false, arith, ltb, ◌==◌,
  if◌then◌else◌, length, set,
}
use pmfs.Inodes.{
  Inode, Table, is_free, Callees, NewInode, created, enomem, eacces, increase_failed, einval,
  free_inode, hint_start,
}
use pmfs.Inodes.Search.{free_at, free_at-set, length-set}
use pmfs.Inodes.Hint.{IsTable}

-- Inode `k` has been taken: the first free one from 3 on, or, if there is none and the table can grow,
-- the first of the block by which it has grown. All other inodes are as free as before, and the hint is
-- good.
abbrev pub TakenBy : (room : Bool) → Table → Table → (k : ℕ) → Type 0
TakenBy room s s' k =
    IsTable s'
    × (3 ≤ k)
    × (k < length s'.inodes)
    × ((j : ℕ) → 3 ≤ j → j < k → free_at s.inodes j ≡ false)
    × ((j : ℕ)
        → j < length s.inodes
        → free_at s'.inodes j ≡ (if j == k then false else free_at s.inodes j))
    × (((k < length s.inodes) × (free_at s.inodes k ≡ true))
        ⊎ ((k ≡ length s.inodes) × (room ≡ true)))

-- What `pmfs_new_inode` comes to, by its outcome.
abbrev pub NewInodeBy : Callees → Table → NewInode → Type 0
NewInodeBy calls s (created s' k) =
    (calls.has_inode ≡ true)
    × (calls.has_diri ≡ true)
    × (calls.inserted ≡ true)
    × TakenBy calls.room s s' k
NewInodeBy calls s enomem = calls.has_inode ≡ false
NewInodeBy calls s eacces = (calls.has_inode ≡ true) × (calls.has_diri ≡ false)
NewInodeBy calls s increase_failed =
    (calls.room ≡ false) × ((j : ℕ) → 3 ≤ j → j < length s.inodes → free_at s.inodes j ≡ false)
NewInodeBy calls s (einval s' k) = (calls.inserted ≡ false) × TakenBy calls.room s s' k

-- Freeing an inode of the table, with a number of 3 or more and no links, at a time that is not 0,
-- makes just this inode free, and keeps the hint good.
pub free_inode-IsTable :
    (now inode_nr : ℕ) (pi : Inode) (s : Table)
    → IsTable s
    → 3 ≤ inode_nr
    → inode_nr < length s.inodes
    → pi.i_links_count ≡ 0
    → 0 < now
    → IsTable (free_inode now inode_nr pi s)
      × ((j : ℕ)
          → free_at (free_inode now inode_nr pi s).inodes j
            ≡ (if j == inode_nr then true else free_at s.inodes j))
unfolding free_inode is_free
free_inode-IsTable now inode_nr pi s w ge lt unlinked late =
    let free = (s.s_free_inodes_count + 1) % 2 ^ 32 in
    let hint =
      if free == (length s.inodes + 2 ^ 32 - hint_start) % 2 ^ 32
      then hint_start
      else if ltb inode_nr s.s_free_inode_hint
      then inode_nr
      else s.s_free_inode_hint in
    let (a, b, c, d) : (3 ≤ hint)
        × (hint ≤ length s.inodes)
        × (hint ≤ inode_nr)
        × (hint ≤ s.s_free_inode_hint) =
      ground (arith, w.low, w.bound) in
    (
      record {
        low = a;
        bound = omega (arith, b, length-set s.inodes inode_nr (record pi { i_dtime = now }));
        below = λ j p q. still_used j p (omega (arith, q, c)) (omega (arith, q, d));
      },
      at,
    )
  where
    at :
        (j : ℕ)
        → free_at (set s.inodes inode_nr (record pi { i_dtime = now })) j
          ≡ (if j == inode_nr then true else free_at s.inodes j)
    at j =
        let free_now : is_free (record pi { i_dtime = now }) ≡ true = ground arith in
        free_at-set s.inodes inode_nr j (record pi { i_dtime = now }) lt ∙ rw free_now refl

    still_used :
        (j : ℕ)
        → 3 ≤ j
        → j < inode_nr
        → j < s.s_free_inode_hint
        → free_at (set s.inodes inode_nr (record pi { i_dtime = now })) j ≡ false
    still_used j p q q' =
        let ne : (j == inode_nr) ≡ false = ground arith in
        free_at-set s.inodes inode_nr j (record pi { i_dtime = now }) lt ∙ rw ne (w.below j p q')
