-- ===== src/Async/Laws.antt =====
-- The averages of a worker's working times.
use native.Mathlib.Nat.{div-add-mod', mod-lt}
use tst.Common.{
  false, zero, suc, ◌==◌, ℕ, List, some, get_elem?, arith, ◌+◌, ◌*◌, ◌%◌, ◌≤◌, ◌<◌, ◌≡◌,
}
use tst.Async.{ThreadInfo, average, atp_get_average_realtime_workingtime}

average-bounds :
    (sum count : ℕ)
    → 1 ≤ count
    → (average sum count * count ≤ sum) × (sum < average sum count * count + count)
unfolding average
average-bounds sum zero h = absurd (omega arith)
average-bounds sum (suc c) h =
    let whole = div-add-mod' sum (suc c) in
    let part : sum % suc c < suc c = mod-lt sum (omega arith) in
    let some_jobs : (suc c == 0) ≡ false = ground arith in
    rw (some_jobs, average) (omega (arith, whole), omega (arith, whole, part))

-- For a thread that is in the table and has run a job, the answer is the exact quotient, rounded
-- down: so many units for each job were spent, and one more for each were not.
average_realtime-bounds :
    (infos : List ThreadInfo) (thread_no : ℕ) (info : ThreadInfo)
    → get_elem? infos thread_no ≡ some info
    → 1 ≤ info.realtime_count
    → let a = atp_get_average_realtime_workingtime infos thread_no in
      (a * info.realtime_count ≤ info.sum_realtime_workingtime)
      × (info.sum_realtime_workingtime < a * info.realtime_count + info.realtime_count)
unfolding atp_get_average_realtime_workingtime
average_realtime-bounds infos thread_no info there some_job =
    rw (there, atp_get_average_realtime_workingtime)
      (average-bounds info.sum_realtime_workingtime info.realtime_count some_job)
