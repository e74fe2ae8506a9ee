-- ===== src/Journal/Lost.antt =====
-- What becomes of transactions while pmfs_add_logentry returns before it writes: from a new journal
-- on no valid entry ever comes about, and neither an abort nor a recovery rolls memory back.
use pmfs.Base.{
  ℕ, zero, suc, ◌+◌, ◌*◌, ◌%◌, ◌^◌, ◌≤◌, ◌<◌, ◌≡◌, refl, sym, ap, ◌∙◌, subst, Bool, true, false,
  arith, ◌==◌, ℕ_discrete, ==_iff,
}
use pmfs.Journal.{
  Log, Mem, JState, Transaction, Run, done, store, undo_entries, undo_transaction, hard_init,
}
use pmfs.Journal.Clean.{Cleaned, clean_journal}
use pmfs.Journal.Trans.{
  started, eagain, new_transaction, add_logentry, commit_transaction, abort_transaction,
}
use pmfs.Journal.Recover.{forward_journal, recover_journal}
use pmfs.Journal.Inert.{Inert, clean_journal-Inert, recover_journal-Inert}
use pmfs.Journal.Reserve.{NewInert, entries_of, new_transaction-NewInert}

undo_entries-none :
    (log : Log) (g start n : ℕ) (mem : Mem)
    → ((le : ℕ) → (log le).gen_id ≡ 0)
    → 0 < g
    → undo_entries log g start n mem ≡ mem
unfolding undo_entries
undo_entries-none log g start zero mem z pos = refl
undo_entries-none log g start (suc n) mem z pos =
    let e : (g == (log (start + n * 64)).gen_id) ≡ false = ground (arith, z (start + n * 64)) in
    rw e (undo_entries-none log g start n mem z pos)

-- On a journal without valid entries `abort_transaction` undoes nothing: the state, memory included,
-- is what it was.
pub abort_transaction-Inert :
    (s : JState) (t : Transaction) → Inert s → 0 < t.gen_id → abort_transaction s t ≡ s
unfolding abort_transaction undo_transaction
abort_transaction-Inert s t i pos =
    let same = undo_entries-none s.log t.gen_id t.start_addr t.num_used s.mem i.no_valid pos in
    simp (i.undo_log, same) (ap (λ (r : Bool). record s { redo_log = r }) (sym i.undo_log))

-- One step of the file system as the journal sees it: a store into memory, a request for a
-- transaction (the fuel does for one round of the ring), a log entry, a commit, an abort of a
-- transaction with a valid generation id, or a run of the cleaner.
pub data JStep (s s' : JState) : Type 0 where
  write : (p v : ℕ) → s' ≡ record s { mem = store s.mem p v } → JStep s s'
  begin :
      (fuel n : ℕ) (mem : Bool) (t : Transaction)
      → s.jsize ≤ suc (suc fuel) * 64
      → new_transaction (suc (suc fuel)) mem s n ≡ done (started s' t)
      → JStep s s'
  refuse :
      (fuel n : ℕ) (mem : Bool)
      → s.jsize ≤ suc (suc fuel) * 64
      → new_transaction (suc (suc fuel)) mem s n ≡ done (eagain s')
      → JStep s s'
  add :
      (t : Transaction) (addr size type : ℕ)
      → s' ≡ (add_logentry s t addr size type).state
      → JStep s s'
  commit : (t : Transaction) → s' ≡ commit_transaction s t → JStep s s'
  abort : (t : Transaction) → 0 < t.gen_id → s' ≡ abort_transaction s t → JStep s s'
  clean :
      (fuel : ℕ) (c : Cleaned)
      → s.jsize ≤ fuel * 64
      → clean_journal fuel s ≡ done c
      → s' ≡ c.state
      → JStep s s'

pub data JSteps (s : JState) : JState → Type 0 where
  here : JSteps s s
  next : {s' s'' : JState} → JSteps s s' → JStep s' s'' → JSteps s s''

store-Inert : (s : JState) (p v : ℕ) → Inert s → Inert (record s { mem = store s.mem p v })
store-Inert s p v i = record {
  head_in = i.head_in;
  tail_in = i.tail_in;
  gen_pos = i.gen_pos;
  gen_small = i.gen_small;
  no_valid = i.no_valid;
  undo_log = i.undo_log;
}

cleaned-Inert : (s : JState) → Inert s → Inert (record s { head = s.tail })
cleaned-Inert s i = record {
  head_in = i.tail_in;
  tail_in = i.tail_in;
  gen_pos = i.gen_pos;
  gen_small = i.gen_small;
  no_valid = i.no_valid;
  undo_log = i.undo_log;
}

-- the state that a run of the cleaner leaves, and `s` if it does not return
abbrev state_of : JState → Run Cleaned → JState
state_of s (done c) = c.state
state_of s _ = s

JStep-Inert : {s s' : JState} → JStep s s' → Inert s → Inert s'
unfolding add_logentry commit_transaction
JStep-Inert {s} (write p v e) i = rw e (store-Inert s p v i)
JStep-Inert {s} (begin fuel n mem t enough e) i =
    (subst (NewInert s (entries_of s n * 64 % 2 ^ 32)) e
      (new_transaction-NewInert fuel mem s n i enough)).0
JStep-Inert {s} (refuse fuel n mem enough e) i =
    (subst (NewInert s (entries_of s n * 64 % 2 ^ 32)) e
      (new_transaction-NewInert fuel mem s n i enough)).0
JStep-Inert (add t addr size type e) i = rw e i
JStep-Inert (commit t e) i = rw e i
JStep-Inert {s} (abort t pos e) i = rw (e, abort_transaction-Inert s t i pos) i
JStep-Inert {s} (clean fuel c enough e f) i =
    let g = ap (state_of s) (sym e ∙ clean_journal-Inert fuel s i enough) in
    rw (f, g) (cleaned-Inert s i)

-- From a journal without valid entries, no sequence of steps makes a valid entry.
pub JSteps-Inert : {s s' : JState} → JSteps s s' → Inert s → Inert s'
JSteps-Inert here i = i
JSteps-Inert (next steps step) i = JStep-Inert step (JSteps-Inert steps i)

-- A new journal has no valid entry.
pub hard_init-Inert :
    (s : JState) (base size : ℕ)
    → size % 64 ≡ 0
    → 0 < size
    → size ≤ 2 ^ 31
    → Inert (hard_init s base size)
unfolding hard_init
hard_init-Inert s base size whole pos small = record {
  head_in = record { whole = whole; small = small; aligned = refl; inside = pos };
  tail_in = record { whole = whole; small = small; aligned = refl; inside = pos };
  gen_pos = omega arith;
  gen_small = omega arith;
  no_valid = λ le. refl;
  undo_log = refl;
}

mem-forward : (s : JState) → (forward_journal s).mem ≡ s.mem
unfolding forward_journal
mem-forward s = ground arith

-- After `hard_init` with a journal of whole entries (2 GiB at most), and after any steps, with stores
-- of unfinished transactions among them, recovery returns and leaves memory as the crash left it:
-- no unfinished transaction is rolled back.
pub recover_journal-lost :
    (fuel : ℕ) (s : JState) (base size : ℕ) {s' : JState}
    → size % 64 ≡ 0
    → 0 < size
    → size ≤ 2 ^ 31
    → JSteps (hard_init s base size) s'
    → s'.jsize ≤ fuel * 64
    → (s'' : JState) × (recover_journal fuel s' ≡ done s'') × (s''.mem ≡ s'.mem)
recover_journal-lost fuel s base size {s'} whole pos small steps enough =
    let i = JSteps-Inert steps (hard_init-Inert s base size whole pos small) in
    elim (ℕ_discrete s'.head s'.tail) [
      | yes e ↦
          let same : (s'.head == s'.tail) ≡ true = (==_iff s'.head s'.tail).1 e in
          (s', unfold recover_journal in rw same, refl)
      | no ne ↦ (forward_journal s', recover_journal-Inert fuel s' i enough ne, mem-forward s')
    ]
