-- ===== src/Dir/Links.antt =====
-- What a directory means: the links of its entries in use, as pairs of a name and an inode number.
use pmfs.Base.{
  ℕ, suc, ◌+◌, ◌≤◌, ◌≡◌, refl, sym, ap, ◌∙◌, true, false, Option, none, some, List, [], ◌∷◌, ◌++◌,
  arith, ◌==◌, if◌then◌else◌, Bool-cases, inl, inr, ℕ_discrete, ◌≢◌, subst, append_assoc,
}
use pmfs.Dir.{Name, DirEntry, Block, same_name}

pub record Link : Type 0 where
  pub link_name : Name
  pub link_ino : ℕ

abbrev pub link : Name → ℕ → Link
link name ino = record { link_name = name; link_ino = ino }

unfoldable pub links : Block → List Link
links [] = []
links (de ∷ rest) = if de.ino == 0 then links rest else link de.name de.ino ∷ links rest

-- the links of the blocks, a hole having none
unfoldable pub all_links : List (Option Block) → List Link
unfolding links
all_links [] = []
all_links (none ∷ rest) = all_links rest
all_links (some block ∷ rest) = links block ++ all_links rest

-- how many links have the name
unfoldable pub count : Name → List Link → ℕ
unfolding same_name
count name [] = 0
count name (l ∷ ls) = if same_name l.link_name name then suc (count name ls) else count name ls

-- the inode of the first link with the name, 0 if none has it
unfoldable pub lookup : Name → List Link → ℕ
unfolding same_name
lookup name [] = 0
lookup name (l ∷ ls) = if same_name l.link_name name then l.link_ino else lookup name ls

-- The list `ys` is `xs` with `l` put in somewhere.
abbrev pub Inserted : List Link → Link → List Link → Type 0
Inserted xs l ys =
    (before behind : List Link) × (xs ≡ before ++ behind) × (ys ≡ before ++ l ∷ behind)

pub same_name_refl : (n : Name) → same_name n n ≡ true
unfolding same_name
same_name_refl [] = refl
same_name_refl (x ∷ xs) = let e : (x == x) ≡ true = ground arith in rw (e, same_name_refl xs)

pub same_name_eq : (m n : Name) → same_name m n ≡ true → m ≡ n
unfolding same_name
same_name_eq [] [] e = refl
same_name_eq [] (y ∷ ys) e = ground arith
same_name_eq (x ∷ xs) [] e = ground arith
same_name_eq (x ∷ xs) (y ∷ ys) e =
    let both : (x ≡ y) × (same_name xs ys ≡ true) = ground arith in
    λ i. both.0 i ∷ same_name_eq xs ys both.1 i

pub count-append : (n : Name) (xs ys : List Link) → count n (xs ++ ys) ≡ count n xs + count n ys
unfolding count
count-append n [] ys = omega arith
count-append n (l ∷ xs) ys = ground (arith, count-append n xs ys)

-- Without the name in `xs` the lookup passes over `xs`.
pub lookup-append :
    (n : Name) (xs ys : List Link) → count n xs ≡ 0 → lookup n (xs ++ ys) ≡ lookup n ys
unfolding count lookup
lookup-append n [] ys e = refl
lookup-append n (l ∷ xs) ys e = ground (arith, lookup-append n xs ys)

pub lookup-none : (n : Name) (xs : List Link) → count n xs ≡ 0 → lookup n xs ≡ 0
unfolding count lookup
lookup-none n [] e = refl
lookup-none n (l ∷ xs) e = ground (arith, lookup-none n xs)

pub lookup-front :
    (n : Name) (xs ys : List Link) → count n xs ≢ 0 → lookup n (xs ++ ys) ≡ lookup n xs
unfolding count lookup
lookup-front n [] ys ne = absurd (ne refl)
lookup-front n (l ∷ xs) ys ne = ground (arith, lookup-front n xs ys)

-- If at most one link has the name, the two halves may be searched in any order.
pub lookup-swap :
    (n : Name) (xs ys : List Link)
    → count n xs + count n ys ≤ 1
    → lookup n (xs ++ ys) ≡ lookup n (ys ++ xs)
lookup-swap n xs ys one = elim (ℕ_discrete (count n xs) 0) [
  | yes e ↦ elim (ℕ_discrete (count n ys) 0) [
    | yes f ↦
        rw
          (lookup-append n xs ys e, lookup-append n ys xs f, lookup-none n xs e, lookup-none n ys f)
    | no nf ↦ rw (lookup-append n xs ys e) (sym (lookup-front n ys xs nf))
  ]
  | no ne ↦ rw (lookup-append n ys xs (omega arith), lookup-front n xs ys ne)
]

-- What the insertion of one link does to the number of links with a name.
pub count-Inserted :
    (n : Name) {xs ys : List Link} {l : Link}
    → Inserted xs l ys
    → count n ys ≡ (if same_name l.link_name n then suc (count n xs) else count n xs)
unfolding count
count-Inserted n {l = l} (before, behind, e, f) =
    rw (e, f, count-append n before behind, count-append n before (l ∷ behind)) (ground arith)

-- A link with another name does not matter.
lookup-skip :
    (n : Name) (before : List Link) (l : Link) (behind : List Link)
    → same_name l.link_name n ≡ false
    → lookup n (before ++ l ∷ behind) ≡ lookup n (before ++ behind)
unfolding lookup
lookup-skip n [] l behind e = rw e
lookup-skip n (k ∷ before) l behind e = ground (arith, lookup-skip n before l behind e)

-- The inserted link is found if its name is new, and the lookup of every other name is what it was.
pub lookup-Inserted :
    (n : Name) {xs ys : List Link} {l : Link}
    → Inserted xs l ys
    → count l.link_name xs ≡ 0
    → lookup n ys ≡ (if same_name l.link_name n then l.link_ino else lookup n xs)
unfolding lookup
lookup-Inserted n {xs} {ys} {l} (before, behind, e, f) new =
    elim (Bool-cases (same_name l.link_name n)) [
      | inl h ↦
          let none_before : count n before ≡ 0 = omega (
            arith,
            sym (count-append n before behind),
            ap (count n) e,
            subst (λ m. count m xs ≡ 0) (same_name_eq l.link_name n h) new,
          ) in
          rw (f, h, lookup-append n before (l ∷ behind) none_before, h)
      | inr h ↦ rw (e, f, h) (lookup-skip n before l behind h)
    ]

pub Inserted-left :
    {xs ys : List Link} {l : Link} (zs : List Link)
    → Inserted xs l ys
    → Inserted (zs ++ xs) l (zs ++ ys)
Inserted-left {l = l} zs (before, behind, e, f) = (
  zs ++ before,
  behind,
  rw e (sym (append_assoc zs before behind)),
  rw f (sym (append_assoc zs before (l ∷ behind))),
)

pub Inserted-right :
    {xs ys : List Link} {l : Link} (zs : List Link)
    → Inserted xs l ys
    → Inserted (xs ++ zs) l (ys ++ zs)
Inserted-right {l = l} zs (before, behind, e, f) = (
  before,
  behind ++ zs,
  rw e (append_assoc before behind zs),
  rw f (append_assoc before (l ∷ behind) zs),
)

-- one more link in front
Inserted-behind :
    (k : Link) {xs ys : List Link} {l : Link} → Inserted xs l ys → Inserted (k ∷ xs) l (k ∷ ys)
Inserted-behind k (before, behind, e, f) =
    (k ∷ before, behind, ap (λ (t : List Link). k ∷ t) e, ap (λ (t : List Link). k ∷ t) f)

pub links-behind :
    (de : DirEntry) (block block' : Block) (l : Link)
    → Inserted (links block) l (links block')
    → Inserted (links (de ∷ block)) l (links (de ∷ block'))
unfolding links
links-behind de block block' l i = elim (Bool-cases (de.ino == 0)) [
  | inl e ↦ rw e i
  | inr e ↦ rw e (Inserted-behind (link de.name de.ino) i)
]

pub links-append : (xs ys : Block) → links (xs ++ ys) ≡ links xs ++ links ys
unfolding links
links-append [] ys = refl
links-append (de ∷ xs) ys = elim (Bool-cases (de.ino == 0)) [
  | inl e ↦ rw e (links-append xs ys)
  | inr e ↦ rw (e, links-append xs ys) refl
]

-- Links stand for entries in use, so their inode numbers are not 0.
lookup-links : (n : Name) (block : Block) → lookup n (links block) ≡ 0 → count n (links block) ≡ 0
unfolding links lookup count
lookup-links n [] e = refl
lookup-links n (de ∷ rest) e = ground (arith, lookup-links n rest)

pub lookup-all_links :
    (n : Name) (blocks : List (Option Block))
    → lookup n (all_links blocks) ≡ 0
    → count n (all_links blocks) ≡ 0
unfolding all_links count
lookup-all_links n [] e = refl
lookup-all_links n (none ∷ rest) e = lookup-all_links n rest e
lookup-all_links n (some block ∷ rest) e = elim (ℕ_discrete (count n (links block)) 0) [
  | yes z ↦
      let later =
        lookup-all_links n rest (sym (lookup-append n (links block) (all_links rest) z) ∙ e) in
      rw (count-append n (links block) (all_links rest)) (omega (arith, z, later))
  | no nz ↦
      absurd
        (nz (lookup-links n block (sym (lookup-front n (links block) (all_links rest) nz) ∙ e)))
]
