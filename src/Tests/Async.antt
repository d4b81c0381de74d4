-- ===== src/Tests/Async.antt =====
-- A job's request, and the averages of two workers.
use tst.Common.{suc, List, refl, some, true, [], ◌∷◌, ◌≡◌, replicate}
use tst.Ami.ProcessEvents.{stat_suspend, stat_run}
use tst.Async.{
  atp_realtime, atp_alloc, ThreadInfo, no_thread, atp_get_average_realtime_workingtime,
  atp_get_average_normal_workingtime, atpfunc,
}

allocated :
    atp_alloc (λ n. true) 3
    ≡ some
        (record { func = 0; priority = atp_realtime; thread_no = 0; s_len = 3; s = replicate 3 0 })
unfolding atp_alloc
allocated = refl

abbrev infos : List ThreadInfo
infos =
    record {
      realtime_count = 2;
      normal_count = 0;
      sum_realtime_workingtime = 7;
      sum_normal_workingtime = 0;
    }
    ∷ []

averages :
    (atp_get_average_realtime_workingtime infos 0 ≡ 3)
    × (atp_get_average_normal_workingtime infos 0 ≡ 0)
    × (atp_get_average_normal_workingtime infos 1 ≡ no_thread)
unfolding atp_get_average_realtime_workingtime atp_get_average_normal_workingtime
averages = (refl, refl, refl)

no_function :
    atpfunc
      (λ f d e. (suc e, stat_run))
      (record { func = 0; priority = atp_realtime; thread_no = 0; s_len = 0; s = [] })
      5
    ≡ (5, stat_suspend)
unfolding atpfunc
no_function = refl
