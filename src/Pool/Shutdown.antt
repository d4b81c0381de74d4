-- ===== src/Pool/Shutdown.antt =====
-- tst/tst.cpp, `tst_main`: what follows its loop. The workers go on meanwhile: their states and the
-- time since each began its last job are arguments of the step that looks at them.
pub mod Laws
use tst.Common.{
  leb, Option, Bool, ltb, map, List, ℕ, refl, sym, ap, subst, ◌∙◌, none, some, true, false, [], ◌∷◌,
  inl, inr, zero, suc, ◌+◌, ◌-◌, ◌*◌, ◌/◌, ◌%◌, ◌^◌, ◌≤◌, ◌<◌, ◌≡◌, ◌≢◌, ◌↔◌, ◌⊎◌, ◌++◌, ◌==◌,
  if◌then◌else◌, ◌&&◌, ◌||◌,
}
use tst.Pool.Types.{Stat, stat_code, tst_run, tst_exit, tst_exited}
use tst.Pool.State.{Pool, Worker}

-- A worker that waits is told to exit.
abbrev pub signal_exit : Worker → Worker
signal_exit w =
    if ltb (stat_code w.thread_stat) (stat_code tst_run)
    then record w { thread_stat = tst_exit }
    else w

-- `m_work_run` is cleared, and the workers that wait are woken.
unfoldable pub stop_workers : {U G : Type 0} → Pool U G → Pool U G
stop_workers p = record p { work_run = false; workers = map signal_exit p.workers }

-- What the main thread sees of a worker: its state, and the time since it began its last job.
pub record Look : Type 0 where
  pub stat : Stat
  pub elapsed : ℕ

abbrev pub is_over : ℕ → Look → Bool
is_over endwaittime l = leb (stat_code tst_exit) (stat_code l.stat) || leb endwaittime l.elapsed

-- One look at all workers: those that `szThreadStatus` marks stay marked.
unfoldable pub look_round : ℕ → List Bool → (ℕ → Look) → ℕ → List Bool
look_round endwaittime [] look i = []
look_round endwaittime (m ∷ ms) look i =
    (m || is_over endwaittime (look i)) ∷ look_round endwaittime ms look (suc i)

abbrev pub all_marked : List Bool → Bool
all_marked [] = true
all_marked (m ∷ ms) = m && all_marked ms

-- The loop that waits, every tenth of a second, on fuel: `looks` is what it sees in each round.
-- `none` is a loop that still runs; else the number of the round in which it ends.
unfoldable pub wait_loop : (fuel round : ℕ) → ℕ → List Bool → (ℕ → ℕ → Look) → Option ℕ
unfolding look_round
wait_loop zero round endwaittime marks looks = none
wait_loop (suc fuel) round endwaittime marks looks =
    let marks' = look_round endwaittime marks (looks round) 0 in
    let more = wait_loop fuel (suc round) endwaittime marks' looks in
    if all_marked marks' then some round else more

-- `pthread_cancel` for each worker that has not reached its end, by its number.
unfoldable pub cancel_rest : List Stat → ℕ → List ℕ
cancel_rest [] i = []
cancel_rest (s ∷ ss) i =
    let others = cancel_rest ss (suc i) in
    if stat_code s == stat_code tst_exited then others else i ∷ others

-- The workers' memory is freed.
abbrev pub free_workers : {U G : Type 0} → Pool U G → Pool U G
free_workers p = record p { workers = [] }
