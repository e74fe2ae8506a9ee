-- ===== src/Balloc/Search.antt =====
-- `walk`, the loop of pmfs_new_block: it uses a free run, and finds one where one is left.
use pmfs.Base.{
  ℕ, ◌+◌, ◌-◌, ◌≤◌, ◌<◌, ◌^◌, ◌≡◌, Bool, true, false, List, [], ◌∷◌, arith, max, dec_lt,
}
use pmfs.Base.Words.{
  add64, sub64, add64-eq-add, sub64-eq-sub, align_down, align_down_bounds, align_down-le,
  align_down-align_down,
}
use pmfs.Balloc.{
  BlockNode, Fit, skip, fill, left, right, middle, Walk, placed, no_memory, no_room, behind, place,
  next_block_low, walk,
}
use pmfs.Balloc.Spec.{used, in_run, IsChain}
use pmfs.Balloc.Place.{PlacedBy, place-PlacedBy, Fits, fit-Fits, next-le}

-- a run that is handed out begins at a multiple of `n`
abbrev pub AlignedBy : ℕ → Walk → Type 0
AlignedBy n (placed l change low) = align_down low n ≡ low
AlignedBy n no_memory = Unit
AlignedBy n no_room = Unit

behind-AlignedBy : (n : ℕ) (i : BlockNode) (w : Walk) → AlignedBy n w → AlignedBy n (behind i w)
unfolding behind
behind-AlignedBy n i (placed l change low) a = a
behind-AlignedBy n i no_memory a = a
behind-AlignedBy n i no_room a = a

place-AlignedBy :
    (n : ℕ) (mem : Bool) (i : BlockNode) (rest : List BlockNode) (low high' : ℕ) (f : Fit)
    (later : Walk)
    → align_down low n ≡ low
    → AlignedBy n later
    → AlignedBy n (place mem i rest low high' f later)
unfolding place
place-AlignedBy n mem i rest low high' skip later e a = behind-AlignedBy n i later a
place-AlignedBy n mem i [] low high' fill later e a = e
place-AlignedBy n mem i (j ∷ rest) low high' fill later e a = e
place-AlignedBy n mem i rest low high' left later e a = e
place-AlignedBy n true i [] low high' right later e a = e
place-AlignedBy n false i [] low high' right later e a = tt
place-AlignedBy n mem i (j ∷ rest) low high' right later e a = e
place-AlignedBy n true i rest low high' middle later e a = e
place-AlignedBy n false i rest low high' middle later e a = tt

-- the `n` blocks from `a` on are a free run that could be handed out
pub record Hole (high n : ℕ) (l : List BlockNode) (a : ℕ) : Type 0 where
  pub aligned : align_down a n ≡ a
  pub fits : a + n ≤ high
  pub is_free : (b : ℕ) → in_run a n b ≡ true → used l b ≡ false

-- no hole lies behind the first node
abbrev pub NoHole : ℕ → ℕ → List BlockNode → Type 0
NoHole high n [] = Unit
NoHole high n (i ∷ rest) = (a : ℕ) → i.block_high < a → ¬ Hole high n (i ∷ rest) a

abbrev pub RoomBy : ℕ → ℕ → List BlockNode → Walk → Type 0
RoomBy high n l no_room = NoHole high n l
RoomBy high n l no_memory = Unit
RoomBy high n l (placed l' change low) = Unit

-- The whole of a node that reaches into a run shows that the run is not free.
not-Hole :
    (high n : ℕ) (i j : BlockNode) (rest : List BlockNode) (a : ℕ)
    → 0 < n
    → j.block_low ≤ j.block_high
    → a ≤ j.block_high
    → j.block_low < a + n
    → ¬ Hole high n (i ∷ j ∷ rest) a
not-Hole high n i j rest a pos ok le lt h = ground (arith, h.is_free (max a j.block_low))

NoHole-cons :
    (k high n : ℕ) (i : BlockNode) (rest : List BlockNode)
    → 0 < n
    → IsChain k high (i ∷ rest)
    → next_block_low high rest < align_down (i.block_high + n) n + n
    → NoHole high n rest
    → NoHole high n (i ∷ rest)
unfolding next_block_low
NoHole-cons k high n i [] pos c h none a lt hole = omega (
  arith,
  hole.fits,
  align_down_bounds (i.block_high + n) n pos,
  align_down-le a (i.block_high + n) n hole.aligned,
)
NoHole-cons k high n i (j ∷ rest) pos c h none a lt hole = elim (dec_lt j.block_high a) [
  | yes p ↦ none a p (record {
    aligned = hole.aligned;
    fits = hole.fits;
    is_free = λ b r. ground (arith, hole.is_free b);
  })
  | no p ↦
      not-Hole high n i j rest a pos c.2.1 (omega arith)
        (omega (
          arith,
          align_down_bounds (i.block_high + n) n pos,
          align_down-le a (i.block_high + n) n hole.aligned,
        ))
        hole
]

place-RoomBy :
    (mem : Bool) (k high n : ℕ) (i : BlockNode) (rest : List BlockNode) (f : Fit) (later : Walk)
    → 0 < n
    → IsChain k high (i ∷ rest)
    → Fits i.block_high
        (next_block_low high rest)
        (align_down (i.block_high + n) n)
        (align_down (i.block_high + n) n + n - 1)
        f
    → RoomBy high n rest later
    → RoomBy high n (i ∷ rest) (
        place mem i rest
          (align_down (i.block_high + n) n)
          (align_down (i.block_high + n) n + n - 1)
          f
          later)
unfolding place behind
place-RoomBy mem k high n i rest skip no_room pos c h r =
    NoHole-cons k high n i rest pos c (omega arith) r
place-RoomBy mem k high n i rest skip no_memory pos c h r = tt
place-RoomBy mem k high n i rest skip (placed l' change low) pos c h r = tt
place-RoomBy mem k high n i [] fill later pos c h r = tt
place-RoomBy mem k high n i (j ∷ rest) fill later pos c h r = tt
place-RoomBy mem k high n i rest left later pos c h r = tt
place-RoomBy true k high n i [] right later pos c h r = tt
place-RoomBy false k high n i [] right later pos c h r = tt
place-RoomBy mem k high n i (j ∷ rest) right later pos c h r = tt
place-RoomBy true k high n i rest middle later pos c h r = tt
place-RoomBy false k high n i rest middle later pos c h r = tt

module _ (mem : Bool) (high n : ℕ) (small : high < 2 ^ 63) (pos : 0 < n) (few : n ≤ 2 ^ 32) where
  -- the candidate run behind a node that ends at `h`
  abbrev candidate : ℕ → ℕ
  candidate h = align_down (h + n) n

  candidate-eq :
      (h : ℕ)
      → h < high
      → (align_down (add64 h n) n ≡ candidate h)
        × (sub64 (add64 (candidate h) n) 1 ≡ candidate h + n - 1)
        × (h < candidate h)
  candidate-eq h lt =
      let e : add64 h n ≡ h + n = add64-eq-add h n (omega arith) in
      let b = align_down_bounds (h + n) n pos in
      let e' : add64 (candidate h) n ≡ candidate h + n =
        add64-eq-add (candidate h) n (omega arith) in
      (rw e, rw e' (sub64-eq-sub (candidate h + n) 1 (omega arith) (omega arith)), omega arith)

  pub walk-PlacedBy :
      (k : ℕ) (l : List BlockNode) → IsChain k high l → PlacedBy mem k high n l (walk mem high n l)
  unfolding walk
  walk-PlacedBy k [] c = tt
  walk-PlacedBy k (i ∷ rest) c =
      let next = next-le (i.block_high + 2) high rest c.2 in
      let e = candidate-eq i.block_high (omega arith) in
      rw (e.0, e.1)
        (place-PlacedBy mem i rest (candidate i.block_high) _ _ c pos next.1
          (fit-Fits i.block_high (next_block_low high rest) (candidate i.block_high)
            (candidate i.block_high + n - 1) (omega arith) (omega arith) e.2)
          (walk-PlacedBy (i.block_high + 2) rest c.2))

  pub walk-AlignedBy :
      (k : ℕ) (l : List BlockNode) → IsChain k high l → AlignedBy n (walk mem high n l)
  unfolding walk
  walk-AlignedBy k [] c = tt
  walk-AlignedBy k (i ∷ rest) c =
      let next = next-le (i.block_high + 2) high rest c.2 in
      let e = candidate-eq i.block_high (omega arith) in
      rw (e.0, e.1)
        (place-AlignedBy n mem i rest (candidate i.block_high) _ _ _
          (align_down-align_down (i.block_high + n) n pos)
          (walk-AlignedBy (i.block_high + 2) rest c.2))

  pub walk-RoomBy :
      (k : ℕ) (l : List BlockNode) → IsChain k high l → RoomBy high n l (walk mem high n l)
  unfolding walk
  walk-RoomBy k [] c = tt
  walk-RoomBy k (i ∷ rest) c =
      let next = next-le (i.block_high + 2) high rest c.2 in
      let e = candidate-eq i.block_high (omega arith) in
      rw (e.0, e.1)
        (place-RoomBy mem k high n i rest _ _ pos c
          (fit-Fits i.block_high (next_block_low high rest) (candidate i.block_high)
            (candidate i.block_high + n - 1) (omega arith) (omega arith) e.2)
          (walk-RoomBy (i.block_high + 2) rest c.2))
