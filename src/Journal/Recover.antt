-- ===== src/Journal/Recover.antt =====
-- Recovery after a crash: pmfs_recover_journal with its backward walk over an undo log and its
-- forward walk over a redo log.
use pmfs.Base.{
  ℕ, zero, suc, ◌+◌, ◌-◌, ◌/◌, ◌%◌, ◌^◌, Bool, true, false, ◌&&◌, ◌||◌, not, ltb, ◌==◌,
  if◌then◌else◌,
}
use pmfs.Journal.{
  LogEntry, JState, Run, done, bug, out_of_fuel, logentry_size, max_gen_id, has_start, has_commit,
  has_abort, next_log_entry, prev_log_entry, next_gen_id, prev_gen_id, undo_entries,
  invalidate_logentries,
}
use pmfs.Journal.Clean.{Processed, process_transaction, pass_over, gen_after, invalidate_last}

-- What the loop of `pmfs_recover_transaction` has found: where the transaction starts, how many
-- entries it has, whether its first entry and a commit or abort entry were seen, and the tail.
pub record Found : Type 0 where
  pub start_addr : ℕ
  pub num_entries : ℕ
  pub start_found : Bool
  pub cmt_or_abrt_found : Bool
  pub tail : ℕ

abbrev pub found : (start n : ℕ) → (start_found cmt : Bool) → (tail : ℕ) → Found
found start n start_found cmt tail = record {
  start_addr = start;
  num_entries = n;
  start_found = start_found;
  cmt_or_abrt_found = cmt;
  tail = tail;
}

abbrev pub ends : LogEntry → Bool
ends e = has_commit e.type || has_abort e.type

-- The loop at the entry `le`, of which `n` have been seen (16 bits). `id` is the transaction's.
unfoldable pub recover_loop :
    ℕ → JState → (gen_id id head : ℕ) → (tail le n : ℕ) → (cmt : Bool) → Run Found
recover_loop zero s gen_id id head tail le n cmt = out_of_fuel
recover_loop (suc fuel) s gen_id id head tail le n cmt =
    let e = s.log le in
    let le' = le - logentry_size in
    let e' = s.log le' in
    let n' = (n + 1) % 2 ^ 16 in
    let cmt' = cmt || (gen_id == e.gen_id && ends e) in
    let rest = recover_loop fuel s gen_id id head (prev_log_entry s.jsize tail) le' n' cmt' in
    if gen_id == e.gen_id && has_start e.type
    then done (found le n' true cmt' tail)
    else if tail == 0 || tail == head
    then done (found le n' false cmt' tail)
    else if gen_id == e'.gen_id && ends e'
    then (if id == e'.transaction_id then bug else done (found le n' false cmt' tail))
    else rest

-- What `pmfs_recover_transaction` does with it: an unfinished transaction is undone, and the entries
-- of the last generation are wiped.
unfoldable pub settle : JState → (gen_id : ℕ) → Found → JState
settle s gen_id f =
    let s' =
      if f.start_found && not f.cmt_or_abrt_found
      then record s { mem = undo_entries s.log gen_id f.start_addr f.num_entries s.mem }
      else s in
    invalidate_last s' gen_id f.start_addr f.num_entries

-- The rest of the loop of `pmfs_recover_undo_journal` behind a recovered transaction.
unfoldable pub undo_rest :
    (JState → (tail : ℕ) → Run JState) → JState → (gen_id : ℕ) → Run Found → Run JState
unfolding settle
undo_rest again s gen_id bug = bug
undo_rest again s gen_id out_of_fuel = out_of_fuel
undo_rest again s gen_id (done f) = again (settle s gen_id f) f.tail

-- The loop of `pmfs_recover_undo_journal`.
unfoldable pub undo_loop : ℕ → (head tail gen_id : ℕ) → JState → Run JState
unfolding undo_rest recover_loop
undo_loop zero head tail gen_id s = out_of_fuel
undo_loop (suc fuel) head tail gen_id s =
    let gen_id' = if tail == 0 then prev_gen_id gen_id else gen_id in
    let tail' = prev_log_entry s.jsize tail in
    let e = s.log tail' in
    let skip = undo_loop fuel head tail' gen_id' (pass_over s gen_id' tail') in
    let undo =
      undo_rest (λ s' t. undo_loop fuel head t gen_id' s') s gen_id'
        (recover_loop fuel s gen_id' e.transaction_id head tail' tail' 0 false) in
    if head == tail then done s else if gen_id' == e.gen_id then undo else skip

unfoldable pub redo_rest :
    (JState → (head gen_id : ℕ) → Run JState) → (gen_id : ℕ) → Run Processed → Run JState
redo_rest again gen_id bug = bug
redo_rest again gen_id out_of_fuel = out_of_fuel
redo_rest again gen_id (done p) = again p.state p.new_head (gen_after p.new_head gen_id)

-- The loop of `pmfs_recover_redo_journal`.
unfoldable pub redo_loop : ℕ → (tail head gen_id : ℕ) → JState → Run JState
unfolding redo_rest
redo_loop zero tail head gen_id s = out_of_fuel
redo_loop (suc fuel) tail head gen_id s =
    let next = next_log_entry s.jsize head in
    let skip = redo_loop fuel tail next (gen_after next gen_id) (pass_over s gen_id head) in
    let redo =
      redo_rest (λ s' h g. redo_loop fuel tail h g s') gen_id
        (process_transaction fuel s true head tail) in
    if head == tail then done s else if gen_id == (s.log head).gen_id then redo else skip

-- `pmfs_forward_journal`: no entry that is in the log is valid in the new generation.
unfoldable pub forward_journal : JState → JState
forward_journal s =
    let s' =
      if s.gen_id == max_gen_id
      then record s {
        log = invalidate_logentries s.log s.tail ((s.jsize + 63 - s.tail) / logentry_size);
      }
      else s in
    record s' { gen_id = next_gen_id s.gen_id; head = s.tail }

unfoldable pub forward : Run JState → Run JState
unfolding forward_journal
forward bug = bug
forward out_of_fuel = out_of_fuel
forward (done s) = done (forward_journal s)

unfoldable pub recover_journal : (fuel : ℕ) → JState → Run JState
unfolding forward undo_loop redo_loop
recover_journal fuel s =
    let redo_gen = if ltb s.tail s.head then prev_gen_id s.gen_id else s.gen_id in
    if s.head == s.tail
    then done s
    else if s.redo_log
    then forward (redo_loop fuel s.tail s.head redo_gen s)
    else forward (undo_loop fuel s.head s.tail s.gen_id s)
