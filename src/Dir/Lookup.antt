-- ===== src/Dir/Lookup.antt =====
-- pmfs_inode_by_name: the lookup of a name, and what a creation and a removal do to it.
use pmfs.Base.{
  ℕ, zero, suc, ◌+◌, ◌^◌, ◌≤◌, ◌<◌, ◌≡◌, ◌≢◌, refl, sym, ap, ◌∙◌, true, false, ◌||◌, Option, none,
  some, List, [], ◌∷◌, ◌++◌, arith, length, take, drop, take-append-drop, ◌==◌, if◌then◌else◌, ltb,
  leb,
}
use pmfs.Dir.{
  Name, DirEntry, Block, same_name, Search, found, absent, failure, search_dirblock, Scan, hit,
  stop, go_on, scan_next, scan, scan_then, is_dots, finish_scan, inode_by_name, Dir,
}
use pmfs.Dir.Links.{
  link, links, all_links, count, lookup, count-append, lookup-append, lookup-none, lookup-swap,
  lookup-front, links-append, same_name_refl,
}
use pmfs.Dir.Block.{AreBlocks}
use pmfs.Dir.Delete.{SearchBy, search_from-SearchBy}
use pmfs.Dir.Add.{all_links-append}

-- A directory of well-formed blocks in which no name occurs twice.
pub record IsDir (blocksize : ℕ) (dir : Dir) : Type 0 where
  pub blocks : AreBlocks blocksize dir.blocks
  pub unique : (n : Name) → count n (all_links dir.blocks) ≤ 1

abbrev ScanBy : Name → List (Option Block) → Scan → Type 0
ScanBy name blocks (hit ino block) =
    (count name (all_links blocks) ≢ 0) × (lookup name (all_links blocks) ≡ ino)
ScanBy name blocks go_on = count name (all_links blocks) ≡ 0
ScanBy name blocks stop = ⊥

-- an entry that the search of one block finds is the first of the links
found-lookup :
    (name : Name) (block : Block) (de : DirEntry) (k : ℕ)
    → SearchBy name block 0 (found de k)
    → (count name (links block) ≢ 0) × (lookup name (links block) ≡ de.ino)
unfolding links count lookup
found-lookup name block de k (before, behind, e, f, g, h, live) =
    let in_use : (de.ino == 0) ≡ false = ground arith in
    let split : links block ≡ links before ++ link de.name de.ino ∷ links behind =
      ap links e ∙ rw (links-append before (de ∷ behind), in_use) refl in
    let same : same_name de.name name ≡ true = rw h (same_name_refl name) in
    rw
      (
        split,
        count-append name (links before) (link de.name de.ino ∷ links behind),
        lookup-append name (links before) (link de.name de.ino ∷ links behind) g,
        same,
      )
      (λ z. absurd (omega (arith, z)), refl)

scan_next-ScanBy :
    (name : Name) (block : Block) (rest : List (Option Block)) (k : ℕ) (later : Scan)
    → ScanBy name rest later
    → (s : Search) → SearchBy name block 0 s
    → ScanBy name (some block ∷ rest) (scan_next later k s)
unfolding scan_next all_links
scan_next-ScanBy name block rest k later l (found de n) s =
    let (c, e) = found-lookup name block de n s in
    (
      λ z. c (omega (arith, z, count-append name (links block) (all_links rest))),
      lookup-front name (links block) (all_links rest) c ∙ e,
    )
scan_next-ScanBy name block rest k (hit ino b) l absent s = (
  λ z. l.0 (omega (arith, z, count-append name (links block) (all_links rest))),
  lookup-append name (links block) (all_links rest) s ∙ l.1,
)
scan_next-ScanBy name block rest k go_on l absent s =
    rw (count-append name (links block) (all_links rest)) (omega (arith, s, l))
scan_next-ScanBy name block rest k stop l absent s = elim l [ ]
scan_next-ScanBy name block rest k later l failure s = elim s [ ]

scan-ScanBy :
    (blocksize : ℕ) (name : Name) (k : ℕ) (blocks : List (Option Block))
    → AreBlocks blocksize blocks
    → ScanBy name blocks (scan blocksize name k blocks)
unfolding scan AreBlocks search_dirblock all_links count
scan-ScanBy blocksize name k [] a = refl
scan-ScanBy blocksize name k (none ∷ rest) a = elim a [ ]
scan-ScanBy blocksize name k (some block ∷ rest) (c, a) =
    scan_next-ScanBy name block rest k _ (scan-ScanBy blocksize name (suc k) rest a) _
      (search_from-SearchBy blocksize 0 0 name block c)

-- The two stretches of the search, the links of the first in front of those of the second.
scan_then-ScanBy :
    (name : Name) (xs ys : List (Option Block)) (first second : Scan)
    → ScanBy name xs first
    → ScanBy name ys second
    → ScanBy name (xs ++ ys) (scan_then first second)
unfolding scan_then
scan_then-ScanBy name xs ys (hit ino b) second l m = rw (all_links-append xs ys) (
  λ z. l.0 (omega (arith, z, count-append name (all_links xs) (all_links ys))),
  lookup-front name (all_links xs) (all_links ys) l.0 ∙ l.1,
)
scan_then-ScanBy name xs ys go_on (hit ino b) l m = rw (all_links-append xs ys) (
  λ z. m.0 (omega (arith, z, count-append name (all_links xs) (all_links ys))),
  lookup-append name (all_links xs) (all_links ys) l ∙ m.1,
)
scan_then-ScanBy name xs ys go_on go_on l m =
    rw (all_links-append xs ys, count-append name (all_links xs) (all_links ys))
      (omega (arith, l, m))
scan_then-ScanBy name xs ys go_on stop l m = elim m [ ]
scan_then-ScanBy name xs ys stop second l m = elim l [ ]

finish_scan-ScanBy :
    (name : Name) (dir : Dir) (blocks : List (Option Block)) (s : Scan)
    → ScanBy name blocks s
    → (finish_scan dir s).ino ≡ lookup name (all_links blocks)
unfolding finish_scan
finish_scan-ScanBy name dir blocks (hit ino b) l = sym l.1
finish_scan-ScanBy name dir blocks go_on l = sym (lookup-none name (all_links blocks) l)
finish_scan-ScanBy name dir blocks stop l = elim l [ ]

AreBlocks-drop :
    (blocksize n : ℕ) (blocks : List (Option Block))
    → AreBlocks blocksize blocks
    → AreBlocks blocksize (take n blocks) × AreBlocks blocksize (drop n blocks)
unfolding AreBlocks
AreBlocks-drop blocksize zero blocks a = (tt, a)
AreBlocks-drop blocksize (suc n) [] a = (tt, tt)
AreBlocks-drop blocksize (suc n) (none ∷ rest) a = elim a [ ]
AreBlocks-drop blocksize (suc n) (some block ∷ rest) (c, a) =
    let (t, d) = AreBlocks-drop blocksize n rest a in ((c, t), d)

-- Where the search starts makes no difference.
lookup-rotate :
    (name : Name) (n : ℕ) (blocks : List (Option Block))
    → count name (all_links blocks) ≤ 1
    → lookup name (all_links (drop n blocks ++ take n blocks)) ≡ lookup name (all_links blocks)
lookup-rotate name n blocks one =
    let whole : all_links blocks ≡ all_links (take n blocks) ++ all_links (drop n blocks) =
      ap all_links (sym (take-append-drop n blocks))
      ∙ all_links-append (take n blocks) (drop n blocks) in
    let two : count name (all_links (drop n blocks)) + count name (all_links (take n blocks)) ≤ 1 =
      omega (
        arith,
        one,
        ap (count name) whole,
        count-append name (all_links (take n blocks)) (all_links (drop n blocks)),
      ) in
    ap (lookup name) (all_links-append (drop n blocks) (take n blocks))
    ∙ lookup-swap name (all_links (drop n blocks)) (all_links (take n blocks)) two
    ∙ ap (lookup name) (sym whole)

-- In a directory of well-formed blocks without double names, the lookup of a name of at most 255
-- bytes gives the inode that the name is linked to, and 0 if it is not there, whatever the block is
-- at which the search begins.
pub inode_by_name-lookup :
    (blocksize : ℕ) (name : Name) (dir : Dir)
    → IsDir blocksize dir
    → length name < 2 ^ 8
    → (inode_by_name blocksize name dir).ino ≡ lookup name (all_links dir.blocks)
unfolding inode_by_name
inode_by_name-lookup blocksize name dir d short =
    let start =
      if is_dots name || leb (length dir.blocks) dir.i_dir_start_lookup
      then 0
      else dir.i_dir_start_lookup in
    let (t, r) = AreBlocks-drop blocksize start dir.blocks d.blocks in
    let e : ltb 255 (length name) ≡ false = ground arith in
    rw e (
      finish_scan-ScanBy name dir (drop start dir.blocks ++ take start dir.blocks) _ (
        scan_then-ScanBy name (drop start dir.blocks) (take start dir.blocks) _ _
          (scan-ScanBy blocksize name start (drop start dir.blocks) r)
          (scan-ScanBy blocksize name 0 (take start dir.blocks) t))
      ∙ lookup-rotate name start dir.blocks (d.unique name))
