-- ===== src/Async.antt =====
-- AsyncThreadPool/AsyncThreadPool.h: the request of a job, its allocation, and the statistics of a
-- worker; amiproc/amiproc.cpp: `atpfunc`, which runs a job. The rest of the header declares functions
-- whose code is not in the repository. A negative number of a thread is one beyond the table here.
pub mod Laws
use tst.Common.{
  refl, sym, ap, subst, ◌∙◌, true, false, [], ◌∷◌, inl, inr, zero, suc, ◌-◌, ◌*◌, ◌≤◌, ◌<◌, ◌≡◌,
  ◌≢◌, ◌↔◌, ◌⊎◌, ◌++◌, ◌&&◌, ◌||◌, ℕ, Bool, Bytes, List, Option, none, some, replicate, get_elem?,
  ◌+◌, ◌/◌, ◌%◌, ◌^◌, ◌==◌, if◌then◌else◌,
}
use tst.Ami.ProcessEvents.{AtpStat, stat_suspend}

pub data AtpPriority : Type 0 where
  atp_realtime atp_normal : AtpPriority

-- `ATP_DATA`; `func` is an address, 0 for none, and `s` the memory behind the structure.
pub record AtpData : Type 0 where
  pub func : ℕ
  pub priority : AtpPriority
  pub thread_no : ℕ
  pub s_len : ℕ
  pub s : Bytes

-- `sizeof(ATP_DATA)`: a pointer, three integers, and the padding.
abbrev pub sizeof_atp_data : ℕ
sizeof_atp_data = 24

-- `malloc` says whether there is a block of that many bytes. `s_len` is an int: its bits.
unfoldable pub atp_alloc : (ℕ → Bool) → ℕ → Option AtpData
atp_alloc malloc data_size =
    if malloc ((data_size + sizeof_atp_data) % 2 ^ 64)
    then some (record {
      func = 0;
      priority = atp_realtime;
      thread_no = 0;
      s_len = data_size % 2 ^ 32;
      s = replicate ((data_size + sizeof_atp_data) % 2 ^ 64 - sizeof_atp_data) 0;
    })
    else none

-- The counts and sums of `THREADINFO`.
pub record ThreadInfo : Type 0 where
  pub realtime_count : ℕ
  pub normal_count : ℕ
  pub sum_realtime_workingtime : ℕ
  pub sum_normal_workingtime : ℕ

-- The -1 of a uint64_t.
abbrev pub no_thread : ℕ
no_thread = 2 ^ 64 - 1

unfoldable pub average : ℕ → ℕ → ℕ
average sum count = if count == 0 then 0 else sum / count

unfoldable pub atp_get_average_realtime_workingtime : List ThreadInfo → ℕ → ℕ
unfolding average
atp_get_average_realtime_workingtime infos thread_no = elim (get_elem? infos thread_no) [
  | none ↦ no_thread
  | some info ↦ average info.sum_realtime_workingtime info.realtime_count
]

unfoldable pub atp_get_average_normal_workingtime : List ThreadInfo → ℕ → ℕ
unfolding average
atp_get_average_normal_workingtime infos thread_no = elim (get_elem? infos thread_no) [
  | none ↦ no_thread
  | some info ↦ average info.sum_normal_workingtime info.normal_count
]

-- `atpfunc`; `run` is what a function does with the job that it is called with.
unfoldable pub atpfunc : {E : Type 0} → (ℕ → AtpData → E → E × AtpStat) → AtpData → E → E × AtpStat
atpfunc run atp_data e =
    if atp_data.func == 0 then (e, stat_suspend) else run atp_data.func atp_data e
