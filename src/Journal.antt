-- ===== src/Journal.antt =====
-- journal.c and journal.h: the log, its entries, and the loops over one transaction's entries.
-- Persistent memory is a function from offsets to bytes, the log a function from the offset of an
-- entry in the journal to the entry. Stores take effect in program order: flushes and barriers
-- have no effect here.
pub mod Clean
pub mod Recover
pub mod Trans
pub mod Ring
pub mod Inert
pub mod Reserve
pub mod Lost
mod Tests
use pmfs.Base.{
  ℕ, zero, suc, ◌+◌, ◌-◌, ◌*◌, ◌/◌, ◌%◌, ◌^◌, Bool, true, false, ◌&&◌, ◌||◌, List, [], ◌∷◌, ltb,
  leb, ◌==◌, if◌then◌else◌,
}

abbrev pub logentry_size : ℕ
logentry_size = 64

abbrev pub max_data_per_lentry : ℕ
max_data_per_lentry = 48

abbrev pub max_gen_id : ℕ
max_gen_id = 2 ^ 16 - 1

-- `pmfs_logentry_t`; `bytes` are the first `size` bytes of its array
pub record LogEntry : Type 0 where
  pub addr_offset : ℕ
  pub transaction_id : ℕ
  pub gen_id : ℕ
  pub type : ℕ
  pub size : ℕ
  pub bytes : List ℕ

abbrev pub Log : Type 0
Log = ℕ → LogEntry

abbrev pub Mem : Type 0
Mem = ℕ → ℕ

abbrev pub le_data : ℕ
le_data = 0

abbrev pub le_start : ℕ
le_start = 1

abbrev pub le_commit : ℕ
le_commit = 2

abbrev pub le_abort : ℕ
le_abort = 4

-- `type & LE_START`, `type & LE_COMMIT || type & LE_ABORT`, `type & LE_COMMIT`
abbrev pub has_start : ℕ → Bool
has_start t = t % 2 == 1

abbrev pub has_commit : ℕ → Bool
has_commit t = t / 2 % 2 == 1

abbrev pub has_abort : ℕ → Bool
has_abort t = t / 4 % 2 == 1

-- `pmfs_journal_t` without its padding, and the journal's part of `struct pmfs_sb_info`
pub record JState : Type 0 where
  pub base : ℕ
  pub head : ℕ
  pub tail : ℕ
  pub gen_id : ℕ
  pub jsize : ℕ
  pub redo_log : Bool
  pub next_transaction_id : ℕ
  pub log : Log
  pub mem : Mem

-- `pmfs_transaction_t`; `start_addr` is an offset in the journal
pub record Transaction : Type 0 where
  pub transaction_id : ℕ
  pub num_entries : ℕ
  pub num_used : ℕ
  pub gen_id : ℕ
  pub start_addr : ℕ

-- The outcome of a loop: `bug` is a failed `BUG_ON`.
pub data Run {ℓ} (A : Type ℓ) : Type ℓ where
  done : A → Run A
  bug out_of_fuel : Run A

-- Offsets and sizes are `uint32_t`.
unfoldable pub next_log_entry : ℕ → ℕ → ℕ
next_log_entry jsize le_off =
    let off = (le_off + logentry_size) % 2 ^ 32 in if leb jsize off then 0 else off

unfoldable pub prev_log_entry : ℕ → ℕ → ℕ
prev_log_entry jsize le_off =
    let off = if le_off == 0 then jsize else le_off in (off + 2 ^ 32 - logentry_size) % 2 ^ 32

-- Generation ids are `uint16_t`, and 0 is never one.
unfoldable pub next_gen_id : ℕ → ℕ
next_gen_id gen_id = let g = (gen_id + 1) % 2 ^ 16 in if g == 0 then (g + 1) % 2 ^ 16 else g

unfoldable pub prev_gen_id : ℕ → ℕ
prev_gen_id gen_id =
    let g = (gen_id + 2 ^ 16 - 1) % 2 ^ 16 in if g == 0 then (g + 2 ^ 16 - 1) % 2 ^ 16 else g

abbrev pub store : Mem → ℕ → ℕ → Mem
store mem p v q = if p == q then v else mem q

-- `memcpy` into persistent memory, and out of it
unfoldable pub copy_in : Mem → ℕ → List ℕ → Mem
copy_in mem p [] = mem
copy_in mem p (b ∷ bytes) = copy_in (store mem p b) (p + 1) bytes

unfoldable pub copy_out : Mem → ℕ → ℕ → List ℕ
copy_out mem p zero = []
copy_out mem p (suc n) = mem p ∷ copy_out mem (p + 1) n

unfoldable pub undo_logentry : LogEntry → Mem → Mem
undo_logentry le mem = if ltb 0 le.size then copy_in mem le.addr_offset le.bytes else mem

-- `pmfs_undo_transaction`: the last of the `n` entries first
unfoldable pub undo_entries : Log → (gen_id start n : ℕ) → Mem → Mem
undo_entries log gen_id start zero mem = mem
undo_entries log gen_id start (suc n) mem =
    let le = log (start + n * logentry_size) in
    undo_entries log gen_id start n (if gen_id == le.gen_id then undo_logentry le mem else mem)

unfoldable pub undo_transaction : Log → Transaction → Mem → Mem
unfolding undo_entries
undo_transaction log trans mem = undo_entries log trans.gen_id trans.start_addr trans.num_used mem

-- `pmfs_redo_transaction`: the first entry first. Outside recovery it only flushes.
unfoldable pub redo_entries : Log → (recover : Bool) → (gen_id le n : ℕ) → Mem → Mem
redo_entries log recover gen_id le zero mem = mem
redo_entries log recover gen_id le (suc n) mem =
    let e = log le in
    redo_entries log recover gen_id (le + logentry_size) n (
      if gen_id == e.gen_id && ltb 0 e.size && recover
      then copy_in mem e.addr_offset e.bytes
      else mem)

-- `invalidate_gen_id` on the entry at `le`
unfoldable pub invalidate_gen_id : Log → ℕ → Log
invalidate_gen_id log le q = if le == q then record (log q) { gen_id = 0 } else log q

-- `pmfs_invalidate_logentries` and `invalidate_remaining_journal`: `n` entries from `le` on
unfoldable pub invalidate_logentries : Log → (le n : ℕ) → Log
invalidate_logentries log le zero = log
invalidate_logentries log le (suc n) =
    invalidate_logentries (invalidate_gen_id log le) (le + logentry_size) n

-- `pmfs_journal_hard_init` and `pmfs_journal_soft_init`: the journal's area is zeroed.
unfoldable pub hard_init : JState → (base size : ℕ) → JState
hard_init s base size = record s {
  base = base;
  head = 0;
  tail = 0;
  gen_id = 1;
  jsize = size;
  redo_log = false;
  next_transaction_id = 0;
  log = λ le. record {
    addr_offset = 0;
    transaction_id = 0;
    gen_id = 0;
    type = 0;
    size = 0;
    bytes = [];
  };
}
