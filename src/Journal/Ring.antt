-- ===== src/Journal/Ring.antt =====
-- The journal as a ring of entries, and the ring of generation ids.
use pmfs.Base.{ℕ, ◌+◌, ◌-◌, ◌%◌, ◌^◌, ◌≤◌, ◌<◌, ◌≡◌, ◌≢◌, arith, leb, if◌then◌else◌}
use pmfs.Journal.{next_log_entry, prev_log_entry, next_gen_id, prev_gen_id}

-- `off` is the offset of an entry in a journal of `jsize` bytes.
pub record IsEntry (jsize off : ℕ) : Type 0 where
  pub whole : jsize % 64 ≡ 0
  pub small : jsize ≤ 2 ^ 31
  pub aligned : off % 64 ≡ 0
  pub inside : off < jsize

-- In the journal, `prev_log_entry` undoes `next_log_entry` and the other way round, and both stay
-- on entries of the journal.
pub prev-next :
    (jsize off : ℕ)
    → IsEntry jsize off
    → IsEntry jsize (next_log_entry jsize off)
      × IsEntry jsize (prev_log_entry jsize off)
      × (prev_log_entry jsize (next_log_entry jsize off) ≡ off)
      × (next_log_entry jsize (prev_log_entry jsize off) ≡ off)
unfolding next_log_entry prev_log_entry
prev-next jsize off e = ground arith

-- A valid generation id is not 0 and fits 16 bits. The next and the previous one are valid, and each
-- step undoes the other, also where the counter wraps.
pub prev_gen-next_gen :
    (g : ℕ)
    → 0 < g
    → g < 2 ^ 16
    → (0 < next_gen_id g)
      × (next_gen_id g < 2 ^ 16)
      × (0 < prev_gen_id g)
      × (prev_gen_id g < 2 ^ 16)
      × (prev_gen_id (next_gen_id g) ≡ g)
      × (next_gen_id (prev_gen_id g) ≡ g)
unfolding next_gen_id prev_gen_id
prev_gen-next_gen g pos small = ground arith

-- how many bytes the walk from `head` to `tail` passes
pub distance : ℕ → (head tail : ℕ) → ℕ
distance jsize head tail = if leb head tail then tail - head else jsize - (head - tail)

pub distance-next :
    (jsize head tail : ℕ)
    → IsEntry jsize head
    → IsEntry jsize tail
    → head ≢ tail
    → distance jsize (next_log_entry jsize head) tail + 64 ≡ distance jsize head tail
unfolding next_log_entry distance
distance-next jsize head tail h t ne = ground arith

pub distance-prev :
    (jsize head tail : ℕ)
    → IsEntry jsize head
    → IsEntry jsize tail
    → head ≢ tail
    → distance jsize head (prev_log_entry jsize tail) + 64 ≡ distance jsize head tail
unfolding prev_log_entry distance
distance-prev jsize head tail h t ne = ground arith

pub distance-lt :
    (jsize head tail : ℕ)
    → IsEntry jsize head
    → IsEntry jsize tail
    → distance jsize head tail < jsize
unfolding distance
distance-lt jsize head tail h t = ground arith
