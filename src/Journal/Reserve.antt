-- ===== src/Journal/Reserve.antt =====
-- pmfs_new_transaction on a journal whose log has no valid entry.
use pmfs.Base.{
  ℕ, zero, suc, ◌+◌, ◌*◌, ◌%◌, ◌^◌, ◌≤◌, ◌<◌, ◌≡◌, refl, Bool, true, false, arith, ltb, leb,
  if◌then◌else◌, dec_lt,
}
use pmfs.Journal.{JState, Run, done, bug, out_of_fuel, next_gen_id}
use pmfs.Journal.Trans.{
  NewTransaction, started, enomem, eagain, avail_size, free_retry, make_room, reserve_from, reserve,
  new_transaction,
}
use pmfs.Journal.Ring.{IsEntry, prev_gen-next_gen}
use pmfs.Journal.Inert.{Inert, clean_journal-Inert}

-- the journal with its head moved up to its tail
abbrev pub emptied : JState → JState
emptied s = record s { head = s.tail }

emptied-Inert : (s : JState) → Inert s → Inert (emptied s)
emptied-Inert s i = record {
  head_in = i.tail_in;
  tail_in = i.tail_in;
  gen_pos = i.gen_pos;
  gen_small = i.gen_small;
  no_valid = i.no_valid;
  undo_log = i.undo_log;
}

avail_lt : (jsize head tail : ℕ) → avail_size jsize head tail < 2 ^ 32
unfolding avail_size
avail_lt jsize head tail = omega arith

pub avail_size-le :
    (jsize head tail : ℕ)
    → IsEntry jsize head
    → IsEntry jsize tail
    → avail_size jsize head tail + 64 ≤ jsize
unfolding avail_size
avail_size-le jsize head tail h t = ground arith

module _ (fuel avail req : ℕ) (word : avail < 2 ^ 32) where
  -- However often it runs, the cleaner frees too little.
  free_retry-Inert :
      (retries : ℕ) (s : JState)
      → Inert s
      → s.jsize ≤ fuel * 64
      → avail < req
      → free_retry (suc retries) fuel avail req s 0
        ≡ done (record { state = emptied s; freed_size = 0 })
  unfolding free_retry
  free_retry-Inert zero s i enough lack =
      let short : leb req ((avail + 0) % 2 ^ 32) ≡ false = ground arith in
      rw (clean_journal-Inert fuel s i enough, short)
  free_retry-Inert (suc retries) s i enough lack =
      let short : leb req ((avail + 0) % 2 ^ 32) ≡ false = ground arith in
      rw (clean_journal-Inert fuel s i enough, short)
        (free_retry-Inert retries (emptied s) (emptied-Inert s i) enough lack)

  make_room-lack :
      (s : JState)
      → Inert s
      → s.jsize ≤ fuel * 64
      → avail < req
      → make_room fuel avail req s ≡ done (record { state = emptied s; freed_size = 0 })
  unfolding make_room
  make_room-lack s i enough lack =
      let short : ltb avail req ≡ true = ground arith in
      rw short (free_retry-Inert 2 s i enough lack)

  make_room-enough :
      (s : JState)
      → req ≤ avail
      → make_room fuel avail req s ≡ done (record { state = s; freed_size = 0 })
  unfolding make_room
  make_room-enough s le = let fine : ltb avail req ≡ false = ground arith in rw fine

-- What a journal without valid entries makes of a request for `req` bytes: a range of entries inside
-- the journal, which becomes the end of the log, or a refusal; memory stays as it is.
abbrev pub NewInert : JState → (req : ℕ) → Run NewTransaction → Type 0
NewInert s req (done (started s' t)) =
    Inert s'
    × (s'.mem ≡ s.mem)
    × (0 < t.gen_id)
    × (s'.tail ≡ t.start_addr + req)
    × (s'.tail < s'.jsize)
    × (s'.jsize ≡ s.jsize)
NewInert s req (done (eagain s')) = Inert s' × (s'.mem ≡ s.mem) × (s'.jsize ≡ s.jsize)
NewInert s req (done enomem) = Unit
NewInert s req bug = ⊥
NewInert s req out_of_fuel = ⊥

module _ (fuel id entries req : ℕ) (whole : req % 64 ≡ 0) (word : req < 2 ^ 32) where
  reserve-lack :
      (jumps head : ℕ) (s : JState)
      → Inert s
      → s.jsize ≤ fuel * 64
      → avail_size s.jsize head s.tail < req
      → reserve (suc jumps) fuel id entries req head s.tail s ≡ done (eagain (emptied s))
  unfolding reserve
  reserve-lack jumps head s i enough lack =
      let avail = avail_size s.jsize head s.tail in
      let short : ltb ((avail + 0) % 2 ^ 32) req ≡ true =
        ground (arith, avail_lt s.jsize head s.tail) in
      rw (
        make_room-lack fuel avail req (avail_lt s.jsize head s.tail) s i enough lack,
        reserve_from,
        short,
      )

  tail-Inert :
      (s : JState)
      → Inert s
      → (s.tail + req) % 2 ^ 32 < s.jsize
      → Inert (record s { tail = (s.tail + req) % 2 ^ 32 })
  tail-Inert s i lt = record {
    head_in = i.head_in;
    tail_in = omega (arith, i.tail_in);
    gen_pos = i.gen_pos;
    gen_small = i.gen_small;
    no_valid = i.no_valid;
    undo_log = i.undo_log;
  }

  wrap-Inert : (s : JState) → Inert s → Inert (record s { tail = 0; gen_id = next_gen_id s.gen_id })
  wrap-Inert s i = record {
    head_in = i.head_in;
    tail_in = omega (arith, i.tail_in);
    gen_pos = (prev_gen-next_gen s.gen_id i.gen_pos i.gen_small).0;
    gen_small = (prev_gen-next_gen s.gen_id i.gen_pos i.gen_small).1;
    no_valid = i.no_valid;
    undo_log = i.undo_log;
  }

  reserve-fits :
      (jumps head : ℕ) (s : JState)
      → Inert s
      → IsEntry s.jsize head
      → req ≤ avail_size s.jsize head s.tail
      → (s.tail + req) % 2 ^ 32 < s.jsize
      → NewInert s req (reserve (suc jumps) fuel id entries req head s.tail s)
  unfolding reserve
  reserve-fits jumps head s i h le lt =
      let avail = avail_size s.jsize head s.tail in
      let fine : ltb ((avail + 0) % 2 ^ 32) req ≡ false =
        ground (arith, avail_lt s.jsize head s.tail) in
      let room : leb s.jsize ((s.tail + req) % 2 ^ 32) ≡ false = ground arith in
      rw
        (
          make_room-enough fuel avail req (avail_lt s.jsize head s.tail) s le,
          reserve_from,
          fine,
          room,
        )
        (
          tail-Inert s i lt,
          refl,
          i.gen_pos,
          omega (arith, i.tail_in, avail_size-le s.jsize head s.tail h i.tail_in),
          lt,
          refl,
        )

  reserve-wraps :
      (jumps head : ℕ) (s : JState)
      → req ≤ avail_size s.jsize head s.tail
      → s.jsize ≤ (s.tail + req) % 2 ^ 32
      → reserve (suc jumps) fuel id entries req head s.tail s
        ≡ reserve jumps fuel id entries req head 0
            (record s { tail = 0; gen_id = next_gen_id s.gen_id })
  unfolding reserve
  reserve-wraps jumps head s le ge =
      let avail = avail_size s.jsize head s.tail in
      let fine : ltb ((avail + 0) % 2 ^ 32) req ≡ false =
        ground (arith, avail_lt s.jsize head s.tail) in
      let full : leb s.jsize ((s.tail + req) % 2 ^ 32) ≡ true = ground arith in
      rw (
        make_room-enough fuel avail req (avail_lt s.jsize head s.tail) s le,
        reserve_from,
        fine,
        full,
      )

  -- From offset 0 no second wrap-around happens.
  reserve-zero :
      (jumps : ℕ) (s : JState)
      → Inert s
      → s.jsize ≤ fuel * 64
      → s.tail ≡ 0
      → (head : ℕ) → IsEntry s.jsize head
      → NewInert s req (reserve (suc jumps) fuel id entries req head s.tail s)
  reserve-zero jumps s i enough zero_tail head h =
      elim (dec_lt (avail_size s.jsize head s.tail) req) [
        | yes lack ↦ rw (reserve-lack jumps head s i enough lack) (emptied-Inert s i, refl, refl)
        | no le ↦
            reserve-fits jumps head s i h (omega arith)
              (omega (arith, zero_tail, avail_size-le s.jsize head s.tail h i.tail_in))
      ]

  reserve-NewInert :
      (jumps : ℕ) (s : JState)
      → Inert s
      → s.jsize ≤ fuel * 64
      → NewInert s req (reserve (suc (suc jumps)) fuel id entries req s.head s.tail s)
  reserve-NewInert jumps s i enough = elim (dec_lt (avail_size s.jsize s.head s.tail) req) [
    | yes lack ↦
        rw (reserve-lack (suc jumps) s.head s i enough lack) (emptied-Inert s i, refl, refl)
    | no le ↦ elim (dec_lt ((s.tail + req) % 2 ^ 32) s.jsize) [
      | yes lt ↦ reserve-fits (suc jumps) s.head s i i.head_in (omega arith) lt
      | no ge ↦ rw (reserve-wraps (suc jumps) s.head s (omega arith) (omega arith)) (
          reserve-zero jumps (record s { tail = 0; gen_id = next_gen_id s.gen_id }) (wrap-Inert s i)
            enough refl s.head i.head_in)
    ]
  ]

req_word : (entries : ℕ) → (entries * 64 % 2 ^ 32 % 64 ≡ 0) × (entries * 64 % 2 ^ 32 < 2 ^ 32)
req_word entries = omega arith

-- the entries that a request asks for, with the commit entry of an undo log
abbrev pub entries_of : JState → ℕ → ℕ
entries_of s n = if s.redo_log then n else n + 1

-- the state in which the request is made, its transaction id taken
abbrev pub counted : JState → JState
counted s = record s { next_transaction_id = (s.next_transaction_id + 1) % 2 ^ 32 }

counted-Inert : (s : JState) → Inert s → Inert (counted s)
counted-Inert s i = record {
  head_in = i.head_in;
  tail_in = i.tail_in;
  gen_pos = i.gen_pos;
  gen_small = i.gen_small;
  no_valid = i.no_valid;
  undo_log = i.undo_log;
}

-- On a journal without valid entries, and with fuel for one round of the ring, `new_transaction`
-- returns. A transaction that it starts has a valid generation id and as many bytes as it asked for,
-- inside the journal and up to the new tail; on every outcome no valid entry and no change of memory
-- has come about.
pub new_transaction-NewInert :
    (fuel : ℕ) (mem : Bool) (s : JState) (n : ℕ)
    → Inert s
    → s.jsize ≤ suc (suc fuel) * 64
    → NewInert s (entries_of s n * 64 % 2 ^ 32) (new_transaction (suc (suc fuel)) mem s n)
unfolding new_transaction
new_transaction-NewInert fuel false s n i enough = tt
new_transaction-NewInert fuel true s n i enough =
    let w = req_word (entries_of s n) in
    reserve-NewInert (suc (suc fuel)) s.next_transaction_id (entries_of s n) _ w.0 w.1 fuel
      (counted s) (counted-Inert s i) enough

-- In a journal whose log has no valid entry, with a turn of fuel for each of its entries and memory for
-- the transaction: a request for more than the space before the head fails with EAGAIN, although the
-- cleaner has moved the head up to the tail and so emptied the journal, for it counts no invalid entry.
pub new_transaction-eagain :
    (fuel : ℕ) (s : JState) (n : ℕ)
    → Inert s
    → s.jsize ≤ suc fuel * 64
    → avail_size s.jsize s.head s.tail < entries_of s n * 64 % 2 ^ 32
    → new_transaction (suc fuel) true s n ≡ done (eagain (emptied (counted s)))
unfolding new_transaction
new_transaction-eagain fuel s n i enough lack =
    let w = req_word (entries_of s n) in
    reserve-lack (suc fuel) s.next_transaction_id (entries_of s n) _ w.0 w.1 fuel s.head (counted s)
      (counted-Inert s i) enough lack
