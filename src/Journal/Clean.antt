-- ===== src/Journal/Clean.antt =====
-- The forward walk of journal.c: pmfs_process_transaction, and pmfs_clean_journal over it.
use pmfs.Base.{ℕ, zero, suc, ◌+◌, ◌%◌, ◌^◌, Bool, false, ◌&&◌, ◌||◌, not, ltb, ◌==◌, if◌then◌else◌}
use pmfs.Journal.{
  JState, Run, done, bug, out_of_fuel, logentry_size, max_gen_id, has_start, has_commit, has_abort,
  next_log_entry, next_gen_id, prev_gen_id, redo_entries, invalidate_gen_id, invalidate_logentries,
}

-- What `pmfs_process_transaction` leaves: the state, the new head and the entries it has handled.
pub record Processed : Type 0 where
  pub state : JState
  pub new_head : ℕ
  pub handled : ℕ

-- `pmfs_invalidate_logentries`, if the generation is the last one
abbrev pub invalidate_last : JState → (gen_id start n : ℕ) → JState
invalidate_last s gen_id start n =
    if gen_id == max_gen_id then record s { log = invalidate_logentries s.log start n } else s

-- The end of a transaction that has a commit or abort entry, `n` entries long; its count of them has 16
-- bits.
unfoldable pub finish : JState → (recover : Bool) → (gen_id start n new_head : ℕ) → ℕ → Processed
finish s recover gen_id start n new_head type =
    let s' =
      if has_commit type && s.redo_log
      then record s { mem = redo_entries s.log recover gen_id start (n % 2 ^ 16) s.mem }
      else s in
    record {
      state = invalidate_last s' gen_id start (n % 2 ^ 16);
      new_head = new_head;
      handled = n;
    }

-- The end of one that has none: outside recovery the head stays.
unfoldable pub give_up : JState → (recover : Bool) → (gen_id start n head new_head : ℕ) → Processed
give_up s recover gen_id start n head new_head =
    if recover
    then record {
      state = invalidate_last s gen_id start (n % 2 ^ 16);
      new_head = new_head;
      handled = n;
    }
    else record { state = s; new_head = head; handled = n }

-- The loop. `n` entries are handled, the next is at `le`; `start` is the first and `head` where the
-- transaction began.
unfoldable pub process_loop :
    ℕ
    → JState
    → (recover : Bool) → (gen_id start head tail : ℕ) → (n new_head le : ℕ) → Run Processed
unfolding finish give_up
process_loop zero s recover gen_id start head tail n new_head le = out_of_fuel
process_loop (suc fuel) s recover gen_id start head tail n new_head le =
    let n' = n + 1 in
    let new_head' = next_log_entry s.jsize new_head in
    let e = s.log le in
    let le' = le + logentry_size in
    let e' = s.log le' in
    let rest = process_loop fuel s recover gen_id start head tail n' new_head' le' in
    if gen_id == e.gen_id && (has_commit e.type || has_abort e.type)
    then done (finish s recover gen_id start n' new_head' e.type)
    else if new_head' == tail || (gen_id == e'.gen_id && has_start e'.type)
    then done (give_up s recover gen_id start n' head new_head')
    else rest

-- `pmfs_process_transaction` at the valid entry at offset `head`
unfoldable pub process_transaction : ℕ → JState → (recover : Bool) → (head tail : ℕ) → Run Processed
unfolding process_loop
process_transaction fuel s recover head tail =
    let e = s.log head in
    if not (has_start e.type)
    then done (record { state = s; new_head = next_log_entry s.jsize head; handled = 0 })
    else process_loop fuel s recover e.gen_id head head tail 0 head head

-- The invalid entry at `head` is passed over, and wiped in the last generation.
abbrev pub pass_over : JState → (gen_id le : ℕ) → JState
pass_over s gen_id le =
    if gen_id == max_gen_id then record s { log = invalidate_gen_id s.log le } else s

-- the generation of the entries from the new head on
abbrev pub gen_after : ℕ → ℕ → ℕ
gen_after head gen_id = if head == 0 then next_gen_id gen_id else gen_id

-- What `pmfs_clean_journal` returns: the state, and how many entries it processed.
pub record Cleaned : Type 0 where
  pub state : JState
  pub total : ℕ

-- The rest of the loop of `pmfs_clean_journal` behind a processed transaction.
unfoldable pub clean_processed :
    (JState → (head gen_id total : ℕ) → Run Cleaned)
    → (head gen_id total : ℕ) → Run Processed
    → Run Cleaned
clean_processed again head gen_id total bug = bug
clean_processed again head gen_id total out_of_fuel = out_of_fuel
clean_processed again head gen_id total (done p) =
    let rest = again p.state p.new_head (gen_after p.new_head gen_id) (total + p.handled) in
    if p.new_head == head
    then done (record { state = record p.state { head = head }; total = total + p.handled })
    else rest

-- The loop of `pmfs_clean_journal`: the walk from `head` to `tail`, and the head that it stores.
unfoldable pub clean_loop : ℕ → JState → (tail : ℕ) → (head gen_id total : ℕ) → Run Cleaned
unfolding clean_processed
clean_loop zero s tail head gen_id total = out_of_fuel
clean_loop (suc fuel) s tail head gen_id total =
    let next = next_log_entry s.jsize head in
    let skip = clean_loop fuel (pass_over s gen_id head) tail next (gen_after next gen_id) total in
    let found =
      clean_processed (λ s' h g t. clean_loop fuel s' tail h g t) head gen_id total
        (process_transaction fuel s false head tail) in
    if head == tail
    then done (record { state = record s { head = head }; total = total })
    else if gen_id == (s.log head).gen_id
    then found
    else skip

-- The fuel is the number of entries in the journal and one for the test that ends the loop.
unfoldable pub clean_journal : ℕ → JState → Run Cleaned
unfolding clean_loop
clean_journal fuel s =
    let gen_id = if ltb s.tail s.head then prev_gen_id s.gen_id else s.gen_id in
    clean_loop fuel s s.tail s.head gen_id 0
