-- ===== src/Journal/Inert.antt =====
-- A journal whose log has no valid entry: what the cleaner and the recovery make of it.
use pmfs.Base.{
  ℕ, zero, suc, ◌*◌, ◌^◌, ◌≤◌, ◌<◌, ◌≡◌, ◌≢◌, false, arith, ltb, ◌==◌, ==_iff, if◌then◌else◌,
  Bool-cases, inl, inr,
}
use mathlib.Core.Path.{fun_ext}
use pmfs.Journal.{
  Log, JState, done, max_gen_id, next_log_entry, prev_log_entry, prev_gen_id, invalidate_gen_id,
}
use pmfs.Journal.Clean.{pass_over, gen_after, Cleaned, clean_loop, clean_journal}
use pmfs.Journal.Recover.{undo_loop, forward_journal, recover_journal}
use pmfs.Journal.Ring.{
  IsEntry, prev-next, prev_gen-next_gen, distance, distance-next, distance-prev, distance-lt,
}

-- No entry of the log is valid, it is an undo log, and the journal's own fields are in range.
pub record Inert (s : JState) : Type 0 where
  pub head_in : IsEntry s.jsize s.head
  pub tail_in : IsEntry s.jsize s.tail
  pub gen_pos : 0 < s.gen_id
  pub gen_small : s.gen_id < 2 ^ 16
  pub no_valid : (le : ℕ) → (s.log le).gen_id ≡ 0
  pub undo_log : s.redo_log ≡ false

invalidate-zero : (log : Log) (le : ℕ) → (log le).gen_id ≡ 0 → invalidate_gen_id log le ≡ log
unfolding invalidate_gen_id
invalidate-zero log le e = fun_ext λ q. wiped q
  where
    wiped : (q : ℕ) → (if le == q then record (log q) { gen_id = 0 } else log q) ≡ log q
    wiped q = ground arith

pass_over-Inert :
    (s : JState) (gen_id le : ℕ) → ((le : ℕ) → (s.log le).gen_id ≡ 0) → pass_over s gen_id le ≡ s
pass_over-Inert s gen_id le z = elim (Bool-cases (gen_id == max_gen_id)) [
  | inl e ↦ rw (e, invalidate-zero s.log le (z le))
  | inr e ↦ rw e
]

-- A valid generation is no invalid entry's.
gen-ne : (s : JState) (g le : ℕ) → 0 < g → (s.log le).gen_id ≡ 0 → (g == (s.log le).gen_id) ≡ false
gen-ne s g le pos e = ground arith

gen_after_pos :
    (head g : ℕ) → 0 < g → g < 2 ^ 16 → (0 < gen_after head g) × (gen_after head g < 2 ^ 16)
gen_after_pos head g pos small = ground (arith, prev_gen-next_gen g pos small)

abbrev pub cleaned : JState → (head total : ℕ) → Cleaned
cleaned s head total = record { state = record s { head = head }; total = total }

-- The cleaner passes over the whole log and frees nothing.
clean_loop-Inert :
    (fuel : ℕ) (s : JState) (tail head g total : ℕ)
    → ((le : ℕ) → (s.log le).gen_id ≡ 0)
    → IsEntry s.jsize head
    → IsEntry s.jsize tail
    → 0 < g
    → g < 2 ^ 16
    → distance s.jsize head tail < fuel * 64
    → clean_loop fuel s tail head g total ≡ done (cleaned s tail total)
unfolding clean_loop
clean_loop-Inert zero s tail head g total z h t pos small enough = absurd (omega arith)
clean_loop-Inert (suc fuel) s tail head g total z h t pos small enough =
    elim (Bool-cases (head == tail)) [
      | inl e ↦ rw (e, (==_iff head tail).0 e)
      | inr e ↦
          let next = prev-next s.jsize head h in
          let gen = gen_after_pos (next_log_entry s.jsize head) g pos small in
          let ne : head ≢ tail = ground arith in
          rw (e, gen-ne s g head pos (z head), pass_over-Inert s g head z)
            (clean_loop-Inert fuel s tail (next_log_entry s.jsize head) _ total z next.0 t gen.0
              gen.1 (omega (arith, distance-next s.jsize head tail h t ne)))
    ]

undo_loop-Inert :
    (fuel : ℕ) (s : JState) (head tail g : ℕ)
    → ((le : ℕ) → (s.log le).gen_id ≡ 0)
    → IsEntry s.jsize head
    → IsEntry s.jsize tail
    → 0 < g
    → g < 2 ^ 16
    → distance s.jsize head tail < fuel * 64
    → undo_loop fuel head tail g s ≡ done s
unfolding undo_loop
undo_loop-Inert zero s head tail g z h t pos small enough = absurd (omega arith)
undo_loop-Inert (suc fuel) s head tail g z h t pos small enough = elim (Bool-cases (head == tail)) [
  | inl e ↦ rw e
  | inr e ↦
      let prev = prev-next s.jsize tail t in
      let ne : head ≢ tail = ground arith in
      let g' = if tail == 0 then prev_gen_id g else g in
      let gen : (0 < g') × (g' < 2 ^ 16) = ground (arith, prev_gen-next_gen g pos small) in
      let tail' = prev_log_entry s.jsize tail in
      rw (e, gen-ne s g' tail' gen.0 (z tail'), pass_over-Inert s g' tail' z)
        (undo_loop-Inert fuel s head tail' g' z h prev.1 gen.0 gen.1
          (omega (arith, distance-prev s.jsize head tail h t ne)))
]

module _ (fuel : ℕ) (s : JState) (i : Inert s) (enough : s.jsize ≤ fuel * 64) where
  -- The cleaner empties the journal and reports that it has freed no entry.
  pub clean_journal-Inert : clean_journal fuel s ≡ done (cleaned s s.tail 0)
  unfolding clean_journal
  clean_journal-Inert =
      clean_loop-Inert fuel s s.tail s.head _ 0 i.no_valid i.head_in i.tail_in (start_gen.0)
        (start_gen.1) (omega (arith, distance-lt s.jsize s.head s.tail i.head_in i.tail_in))
    where
      start_gen :
          let g = if ltb s.tail s.head then prev_gen_id s.gen_id else s.gen_id in
          (0 < g) × (g < 2 ^ 16)
      start_gen = ground (arith, prev_gen-next_gen s.gen_id i.gen_pos i.gen_small)

  -- The recovery of an undo log rolls nothing back.
  pub recover_journal-Inert : s.head ≢ s.tail → recover_journal fuel s ≡ done (forward_journal s)
  unfolding recover_journal
  recover_journal-Inert ne =
      let e : (s.head == s.tail) ≡ false = ground arith in
      let walk =
        undo_loop-Inert fuel s s.head s.tail s.gen_id i.no_valid i.head_in i.tail_in i.gen_pos
          i.gen_small (omega (arith, distance-lt s.jsize s.head s.tail i.head_in i.tail_in)) in
      rw (e, walk) (simp i.undo_log)
