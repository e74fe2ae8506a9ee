-- ===== src/Dir/Delete.antt =====
-- Searching a block and taking an entry out: pmfs_search_dirblock and the end of pmfs_remove_entry.
use pmfs.Base.{
  ℕ, suc, ◌+◌, ◌%◌, ◌^◌, ◌≤◌, ◌<◌, ◌≡◌, refl, sym, ap, ◌∙◌, true, false, ◌&&◌, [], ◌∷◌, ◌++◌, arith,
  length, ◌==◌, ltb, leb, Bool-cases, inl, inr,
}
use pmfs.Dir.{
  Name, DirEntry, Block, dir_rec_len, same_name, match_name, check_dir_entry, Search, found, absent,
  failure, search_from, unlink_at,
}
use pmfs.Dir.Links.{link, links, count, Inserted, same_name_eq, links-behind}
use pmfs.Dir.Block.{IsDirEntry, IsChain, IsChain-end}

-- What the search on a well-formed block comes to: the first entry in use with the name, at its
-- position, or no entry in use has it.
abbrev pub SearchBy : Name → Block → (position : ℕ) → Search → Type 0
SearchBy name block k (found de n) =
    (before behind : Block) × (block ≡ before ++ de ∷ behind)
    × (n ≡ k + length before)
    × (count name (links before) ≡ 0)
    × (de.name ≡ name)
    × (0 < de.ino)
SearchBy name block k absent = count name (links block) ≡ 0
SearchBy name block k failure = ⊥

-- A well-formed entry passes the check.
pub check_dir_entry-IsDirEntry :
    (blocksize offset : ℕ) (de : DirEntry)
    → IsDirEntry de
    → offset + de.de_len ≤ blocksize
    → check_dir_entry blocksize offset de ≡ true
unfolding check_dir_entry dir_rec_len
check_dir_entry-IsDirEntry blocksize offset de d fits =
    ground (arith, d.minimal, d.whole, d.has_room)

count-links :
    (name : Name) (de : DirEntry) (rest : Block)
    → match_name name de ≡ false
    → length de.name ≡ de.name_len
    → count name (links (de ∷ rest)) ≡ count name (links rest)
unfolding match_name links count
count-links name de rest e c = elim (Bool-cases (same_name de.name name)) [
  | inl h ↦
      let l : length name ≡ de.name_len = sym (ap length (same_name_eq de.name name h)) ∙ c in
      let free : (de.ino == 0) ≡ true = ground arith in rw free refl
  | inr h ↦ elim (Bool-cases (de.ino == 0)) [ inl z ↦ rw z refl | inr z ↦ rw (z, h) refl ]
]

match_name-eq :
    (name : Name) (de : DirEntry)
    → match_name name de ≡ true
    → (de.name ≡ name) × (0 < de.ino) × (length name ≡ de.name_len)
unfolding match_name
match_name-eq name de e =
    let h : same_name de.name name ≡ true = ground arith in
    (same_name_eq de.name name h, ground arith, ground arith)

later-SearchBy :
    (name : Name) (de : DirEntry) (rest : Block) (k : ℕ)
    → match_name name de ≡ false
    → length de.name ≡ de.name_len
    → (s : Search) → SearchBy name rest (suc k) s
    → SearchBy name (de ∷ rest) k s
later-SearchBy name de rest k e c (found res n) (before, behind, f, g, h, i, j) = (
  de ∷ before,
  behind,
  ap (λ (t : Block). de ∷ t) f,
  omega (arith, g),
  count-links name de before e c ∙ h,
  i,
  j,
)
later-SearchBy name de rest k e c absent h = count-links name de rest e c ∙ h
later-SearchBy name de rest k e c failure h = elim h [ ]

pub search_from-SearchBy :
    (blocksize offset k : ℕ) (name : Name) (block : Block)
    → IsChain blocksize offset block
    → SearchBy name block k (search_from blocksize name offset k block)
unfolding search_from IsChain count links
search_from-SearchBy blocksize offset k name [] c = refl
search_from-SearchBy blocksize offset k name (de ∷ rest) (d, c) =
    let fits = IsChain-end blocksize (offset + de.de_len) rest c in
    let e : ltb offset blocksize ≡ true = ground (arith, d.minimal) in
    let z : (de.de_len == 0) ≡ false = ground (arith, d.minimal) in
    elim (Bool-cases (match_name name de)) [
      | inl m ↦
          let (same, live, len) = match_name-eq name de m in
          let g : leb (offset + length name) blocksize ≡ true =
            unfold dir_rec_len in ground (arith, d.has_room) in
          rw (e, g, m, check_dir_entry-IsDirEntry blocksize offset de d fits)
            ([], rest, refl, omega arith, refl, same, live)
      | inr m ↦
          let f : (leb (offset + length name) blocksize && match_name name de) ≡ false =
            rw m (ground arith) in
          rw (e, f, z)
            (later-SearchBy name de rest k m d.counted _
              (search_from-SearchBy blocksize (offset + de.de_len) (suc k) name rest c))
    ]

-- Taking out the entry behind `before` leaves a well-formed block, and takes out just its link.
pub unlink_at-IsChain :
    (blocksize offset : ℕ) (before : Block) (de : DirEntry) (behind : Block)
    → blocksize < 2 ^ 16
    → 0 < de.ino
    → IsChain blocksize offset (before ++ de ∷ behind)
    → IsChain blocksize offset (unlink_at (length before) (before ++ de ∷ behind))
      × Inserted
          (links (unlink_at (length before) (before ++ de ∷ behind)))
          (link de.name de.ino)
          (links (before ++ de ∷ behind))
unfolding unlink_at IsChain links
unlink_at-IsChain blocksize offset [] de behind word live (d, c) =
    let in_use : (de.ino == 0) ≡ false = ground arith in
    rw in_use (
      (
        record {
          minimal = d.minimal;
          whole = d.whole;
          has_room = d.has_room;
          counted = d.counted;
          named = λ p. absurd (omega (arith, p));
        },
        c,
      ),
      ([], links behind, refl, refl),
    )
unlink_at-IsChain blocksize offset (p ∷ []) de behind word live (o, (d, c)) =
    let end = IsChain-end blocksize (offset + p.de_len + de.de_len) behind c in
    let in_use : (de.ino == 0) ≡ false = ground arith in
    let same : offset + (p.de_len + de.de_len) % 65536 ≡ offset + p.de_len + de.de_len =
      omega arith in
    let merged : IsDirEntry (record p { de_len = (p.de_len + de.de_len) % 65536 }) = record {
      minimal = omega (arith, o.minimal);
      whole = omega (arith, o.whole, d.whole);
      has_room = omega (arith, o.has_room);
      counted = o.counted;
      named = o.named;
    } in
    rw in_use (
      (merged, rw same c),
      elim (Bool-cases (p.ino == 0)) [
        | inl e ↦ rw e ([], links behind, refl, refl)
        | inr e ↦ rw e (link p.name p.ino ∷ [], links behind, refl, refl)
      ],
    )
unlink_at-IsChain blocksize offset (p ∷ q ∷ before) de behind word live (d, c) =
    let (c', i) =
      unlink_at-IsChain blocksize (offset + p.de_len) (q ∷ before) de behind word live c in
    (
      (d, c'),
      links-behind p (unlink_at (suc (length before)) (q ∷ before ++ de ∷ behind))
          (q ∷ before ++ de ∷ behind) (link de.name de.ino) i,
    )
