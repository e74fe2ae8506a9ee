-- ===== src/Dir/Names.antt =====
-- What creating and removing a name do to the lookups of all names.
use pmfs.Base.{
  ℕ, suc, ◌^◌, ◌≤◌, ◌<◌, ◌≡◌, ◌≢◌, refl, sym, ◌∙◌, subst, Bool, Bool-cases, inl, inr, List, arith,
  length, if◌then◌else◌,
}
use pmfs.Dir.{
  Name, same_name, inode_by_name, Dir, Entry, success, einval, eio, alloc_failed, stuck, add_entry,
  remove_entry,
}
use pmfs.Dir.Links.{
  Link, link, all_links, count, lookup, lookup-none, lookup-all_links, Inserted, same_name_refl,
  same_name_eq, count-Inserted, lookup-Inserted,
}
use pmfs.Dir.Block.{IsBlocksize}
use pmfs.Dir.Add.{AddEntryBy, add_entry-AddEntryBy}
use pmfs.Dir.Remove.{RemoveEntryBy, remove_entry-RemoveEntryBy}
use pmfs.Dir.Lookup.{IsDir, inode_by_name-lookup}

add_unique :
    (name : Name) (ino : ℕ) {xs ys : List Link}
    → Inserted xs (link name ino) ys
    → count name xs ≡ 0
    → ((n : Name) → count n xs ≤ 1)
    → (n : Name) → count n ys ≤ 1
add_unique name ino {xs} {ys} i new one n = elim (Bool-cases (same_name name n)) [
  | inl e ↦
      let z : count n xs ≡ 0 = subst (λ m. count m xs ≡ 0) (same_name_eq name n e) new in
      rw (count-Inserted n i, e) (omega (arith, z))
  | inr e ↦ rw (count-Inserted n i, e) (one n)
]

remove_unique :
    (name : Name) (ino : ℕ) {xs ys : List Link}
    → Inserted xs (link name ino) ys
    → ((n : Name) → count n ys ≤ 1)
    → (count name xs ≡ 0) × ((n : Name) → count n xs ≤ 1)
remove_unique name ino {xs} {ys} i one =
    let c : count name ys ≡ suc (count name xs) =
      count-Inserted name i ∙ rw (same_name_refl name) refl in
    (omega (arith, c, one name), λ n. fewer n)
  where
    fewer : (n : Name) → count n xs ≤ 1
    fewer n = elim (Bool-cases (same_name name n)) [
      | inl e ↦ ground (arith, e, count-Inserted n i, one n)
      | inr e ↦ ground (arith, e, count-Inserted n i, one n)
    ]

-- In a directory of well-formed blocks of an admitted size without double names, adding a name of at
-- most 255 bytes that is not found there, for an inode number above 0, if it succeeds, leaves such a
-- directory. In it the name is found with its inode, and every other name of at most 255 bytes as
-- before.
pub add_entry-inode_by_name :
    (blocksize : ℕ) (alloc : Bool) (now : ℕ) (name other : Name) (ino : ℕ) (dir : Dir) {dir' : Dir}
    → IsBlocksize blocksize
    → IsDir blocksize dir
    → length name < 2 ^ 8
    → length other < 2 ^ 8
    → 0 < ino
    → (inode_by_name blocksize name dir).ino ≡ 0
    → add_entry blocksize alloc now name ino dir ≡ success dir'
    → IsDir blocksize dir'
      × ((inode_by_name blocksize other dir').ino
          ≡ (if same_name name other then ino else (inode_by_name blocksize other dir).ino))
add_entry-inode_by_name blocksize alloc now name other ino dir {dir'} size d short short' live new
      e =
    let (a, i, t, u, v) =
      subst (AddEntryBy blocksize alloc now name ino dir) e
        (add_entry-AddEntryBy blocksize alloc now name ino dir size short live d.blocks) in
    let z : count name (all_links dir.blocks) ≡ 0 =
      lookup-all_links name dir.blocks
        (sym (inode_by_name-lookup blocksize name dir d short) ∙ new) in
    let d' : IsDir blocksize dir' = record {
      blocks = a;
      unique = λ n. add_unique name ino i z d.unique n;
    } in
    (
      d',
      rw
          (
            inode_by_name-lookup blocksize other dir' d' short',
            inode_by_name-lookup blocksize other dir d short',
          )
          (lookup-Inserted other i z),
    )

-- Removing a name from a directory of well-formed blocks of an admitted size without double names, if
-- it succeeds, leaves such a directory. In it the name, if it has at most 255 bytes, is not found, and
-- every other name of at most 255 bytes is found as before.
pub remove_entry-inode_by_name :
    (blocksize now : ℕ) (name other : Name) (dir : Dir) {dir' : Dir}
    → IsBlocksize blocksize
    → IsDir blocksize dir
    → length other < 2 ^ 8
    → remove_entry blocksize now name dir ≡ success dir'
    → IsDir blocksize dir'
      × ((inode_by_name blocksize other dir').ino
          ≡ (if same_name name other then 0 else (inode_by_name blocksize other dir).ino))
remove_entry-inode_by_name blocksize now name other dir {dir'} size d short e =
    let (a, (ino, live, i), t, u, v) =
      subst (RemoveEntryBy blocksize now name dir) e
        (remove_entry-RemoveEntryBy blocksize now name dir size.word d.blocks) in
    let (z, one) = remove_unique name ino i d.unique in
    let d' : IsDir blocksize dir' = record { blocks = a; unique = one } in
    (
      d',
      rw
          (
            inode_by_name-lookup blocksize other dir' d' short,
            inode_by_name-lookup blocksize other dir d short,
            lookup-Inserted other i z,
          )
          (gone other ino z),
    )
  where
    gone :
        (other : Name) (ino : ℕ)
        → count name (all_links dir'.blocks) ≡ 0
        → lookup other (all_links dir'.blocks) ≡ (
            if same_name name other
            then 0
            else if same_name name other
            then ino
            else lookup other (all_links dir'.blocks))
    gone other ino z = elim (Bool-cases (same_name name other)) [
      | inl e ↦ rw e (
          lookup-none other (all_links dir'.blocks)
            (subst (λ m. count m (all_links dir'.blocks) ≡ 0) (same_name_eq name other e) z))
      | inr e ↦ rw e refl
    ]

-- A name of 1 to 255 bytes that a directory without double names has can be removed.
pub remove_entry_complete :
    (blocksize now : ℕ) (name : Name) (dir : Dir)
    → blocksize < 2 ^ 16
    → IsDir blocksize dir
    → 0 < length name
    → length name < 2 ^ 8
    → (inode_by_name blocksize name dir).ino ≢ 0
    → (dir' : Dir) × (remove_entry blocksize now name dir ≡ success dir')
remove_entry_complete blocksize now name dir word d named short there =
    go (remove_entry blocksize now name dir) refl
      (remove_entry-RemoveEntryBy blocksize now name dir word d.blocks)
  where
    go :
        (r : Entry)
        → remove_entry blocksize now name dir ≡ r
        → RemoveEntryBy blocksize now name dir r
        → (dir' : Dir) × (remove_entry blocksize now name dir ≡ success dir')
    go (success dir') e b = (dir', e)
    go einval e (inl z) = absurd (omega (arith, z, named))
    go einval e (inr z) = absurd (
        there (
          inode_by_name-lookup blocksize name dir d short
          ∙ lookup-none name (all_links dir.blocks) z))
    go eio e b = elim b [ ]
    go alloc_failed e b = elim b [ ]
    go stuck e b = elim b [ ]

-- In a directory of well-formed blocks of an admitted size without double names, let a name of 1 to
-- 255 bytes that is not found be added for an inode number above 0. If that succeeds, removing the
-- name succeeds, and every name of at most 255 bytes is found as before the two.
pub remove_entry-add_entry :
    (blocksize : ℕ) (alloc : Bool) (now later : ℕ) (name : Name) (ino : ℕ) (dir : Dir) {dir' : Dir}
    → IsBlocksize blocksize
    → IsDir blocksize dir
    → 0 < length name
    → length name < 2 ^ 8
    → 0 < ino
    → (inode_by_name blocksize name dir).ino ≡ 0
    → add_entry blocksize alloc now name ino dir ≡ success dir'
    → (dir'' : Dir) × (remove_entry blocksize later name dir' ≡ success dir'')
      × ((other : Name)
          → length other < 2 ^ 8
          → (inode_by_name blocksize other dir'').ino ≡ (inode_by_name blocksize other dir).ino)
remove_entry-add_entry blocksize alloc now later name ino dir {dir'} size d named short live new e =
    let (d', f) =
      add_entry-inode_by_name blocksize alloc now name name ino dir size d short short live new e in
    let there : (inode_by_name blocksize name dir').ino ≢ 0 =
      λ z. absurd (ground (arith, z, f, same_name_refl name)) in
    let (dir'', r) =
      remove_entry_complete blocksize later name dir' size.word d' named short there in
    (dir'', r, λ other short'. same other short' d' r)
  where
    same :
        (other : Name)
        → length other < 2 ^ 8
        → IsDir blocksize dir'
        → {dir'' : Dir} → remove_entry blocksize later name dir' ≡ success dir''
        → (inode_by_name blocksize other dir'').ino ≡ (inode_by_name blocksize other dir).ino
    same other short' d' r =
        let added =
          (add_entry-inode_by_name blocksize alloc now name other ino dir size d short short' live
            new e).1 in
        let removed =
          (remove_entry-inode_by_name blocksize later name other dir' size d' short' r).1 in
        elim (Bool-cases (same_name name other)) [
          | inl h ↦
              let zero_name : (inode_by_name blocksize other dir).ino ≡ 0 =
                subst (λ m. (inode_by_name blocksize m dir).ino ≡ 0) (same_name_eq name other h)
                  new in
              ground (arith, added, removed, zero_name, h)
          | inr h ↦ ground (arith, added, removed, h)
        ]
