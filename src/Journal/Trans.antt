-- ===== src/Journal/Trans.antt =====
-- Transactions: pmfs_new_transaction, pmfs_add_logentry, pmfs_commit_transaction and
-- pmfs_abort_transaction. Waking the cleaner's thread is not modelled; a run of the cleaner is.
use pmfs.Base.{ℕ, zero, suc, ◌+◌, ◌-◌, ◌*◌, ◌%◌, ◌^◌, Bool, ltb, leb, if◌then◌else◌}
use pmfs.Journal.{
  JState, Transaction, Run, done, bug, out_of_fuel, logentry_size, le_commit, le_abort, next_gen_id,
  undo_transaction,
}
use pmfs.Journal.Clean.{Cleaned, clean_journal}

pub data NewTransaction : Type 0 where
  started : JState → Transaction → NewTransaction
  enomem : NewTransaction
  -- the journal is full
  eagain : JState → NewTransaction

-- `avail_size`, in 32 bits
unfoldable pub avail_size : ℕ → (head tail : ℕ) → ℕ
avail_size jsize head tail =
    let free = if leb head tail then (jsize + 2 ^ 32 - (tail - head)) % 2 ^ 32 else head - tail in
    (free + 2 ^ 32 - logentry_size) % 2 ^ 32

-- What the cleaner has freed, and the state it leaves.
pub record Freed : Type 0 where
  pub state : JState
  pub freed_size : ℕ

unfoldable pub after_clean :
    (JState → (freed_size : ℕ) → Run Freed) → (avail req freed_size : ℕ) → Run Cleaned → Run Freed
after_clean again avail req freed_size bug = bug
after_clean again avail req freed_size out_of_fuel = out_of_fuel
after_clean again avail req freed_size (done c) =
    let freed = (freed_size + logentry_size * c.total) % 2 ^ 32 in
    let rest = again c.state freed in
    if leb req ((avail + freed) % 2 ^ 32)
    then done (record { state = c.state; freed_size = freed })
    else rest

-- `for (retry = 0; retry < 3; retry++)` with the rounds left
unfoldable pub free_retry : ℕ → (fuel : ℕ) → (avail req : ℕ) → JState → ℕ → Run Freed
unfolding after_clean
free_retry zero fuel avail req s freed_size = done (record { state = s; freed_size = freed_size })
free_retry (suc retries) fuel avail req s freed_size =
    after_clean (λ s' f. free_retry retries fuel avail req s' f) avail req freed_size
      (clean_journal fuel s)

unfoldable pub make_room : (fuel : ℕ) → (avail req : ℕ) → JState → Run Freed
unfolding free_retry
make_room fuel avail req s =
    if ltb avail req
    then free_retry 3 fuel avail req s 0
    else done (record { state = s; freed_size = 0 })

abbrev pub transaction : (id entries gen_id start : ℕ) → Transaction
transaction id entries gen_id start = record {
  transaction_id = id;
  num_entries = entries % 2 ^ 16;
  num_used = 0;
  gen_id = gen_id;
  start_addr = start;
}

-- `again` is the jump back after a wrap-around. `tail` is where the transaction would start.
unfoldable pub reserve_from :
    (JState → Run NewTransaction) → (id entries avail req tail : ℕ) → Run Freed → Run NewTransaction
reserve_from again id entries avail req tail bug = bug
reserve_from again id entries avail req tail out_of_fuel = out_of_fuel
reserve_from again id entries avail req tail (done f) =
    let s = f.state in
    let tail' = (tail + req) % 2 ^ 32 in
    let wrapped = again (record s { tail = 0; gen_id = next_gen_id s.gen_id }) in
    if ltb ((avail + f.freed_size) % 2 ^ 32) req
    then done (eagain s)
    else if leb s.jsize tail'
    then wrapped
    else done (started (record s { tail = tail' }) (transaction id entries s.gen_id tail))

-- From the label `again` on: `head` is the head that was read first, and `jumps` bounds the jumps.
unfoldable pub reserve :
    (jumps fuel : ℕ) → (id entries req head tail : ℕ) → JState → Run NewTransaction
unfolding reserve_from make_room
reserve zero fuel id entries req head tail s = out_of_fuel
reserve (suc jumps) fuel id entries req head tail s =
    let avail = avail_size s.jsize head tail in
    reserve_from (λ s'. reserve jumps fuel id entries req head 0 s') id entries avail req tail
      (make_room fuel avail req s)

-- `mem` says whether a transaction record can be allocated.
unfoldable pub new_transaction :
    (fuel : ℕ) → Bool → JState → (max_log_entries : ℕ) → Run NewTransaction
unfolding reserve
new_transaction fuel mem s max_log_entries =
    let entries = if s.redo_log then max_log_entries else max_log_entries + 1 in
    let req = entries * logentry_size % 2 ^ 32 in
    let s' = record s { next_transaction_id = (s.next_transaction_id + 1) % 2 ^ 32 } in
    if mem
    then reserve fuel fuel s.next_transaction_id entries req s.head s.tail s'
    else done enomem

pub data Errno : Type 0 where
  success einval enomem : Errno

pub record Added : Type 0 where
  pub state : JState
  pub trans : Transaction
  pub errno : Errno

-- `pmfs_add_logentry` as it stands: its `return -EINVAL` is outside the test for a null transaction,
-- so the function returns it always and does nothing.
unfoldable pub add_logentry : JState → Transaction → (addr size type : ℕ) → Added
add_logentry s trans addr size type = record { state = s; trans = trans; errno = einval }

-- `pmfs_commit_transaction`, which does not look at what the commit entry returns
unfoldable pub commit_transaction : JState → Transaction → JState
unfolding add_logentry
commit_transaction s trans = (add_logentry s trans 0 0 le_commit).state

-- `pmfs_abort_transaction`
unfoldable pub abort_transaction : JState → Transaction → JState
unfolding add_logentry
abort_transaction s trans =
    let s' = if s.redo_log then s else record s { mem = undo_transaction s.log trans s.mem } in
    (add_logentry s' trans 0 0 le_abort).state
