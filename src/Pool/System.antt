-- ===== src/Pool/System.antt =====
-- tst/tst.cpp: `tst_main` and the `tst_work` threads over one pool and one epoll descriptor, in any
-- order of steps. What a thread does between the lock and the unlock of a mutex is one step, and so
-- is the handling of one event and the run of one job: that the main thread looks up `m_connect`
-- without its mutex, while a worker may erase from it, is left out. `clear` is what `destroy`, on
-- its caller's thread, does before it joins the main thread: as that thread reads the flag at the
-- head of its loop alone, the step stands for the moment before it does. A worker tests
-- `m_work_run` before it waits, so that it may do one more round when the flag is cleared: no round
-- asks for the flag here. The steps end where `tst_main` has told the workers to exit: neither the
-- cancelling of those that still run nor the `free` of `m_workers` is a step.
pub mod Live
pub mod Changes
pub mod Joining
pub mod Calls
pub mod Accepting
pub mod Handling
pub mod Work
pub mod Jobs
pub mod Refine
pub mod Safety
pub mod Idle
pub mod Resend
pub mod Elsewhere
pub mod Untouched
pub mod Running
pub mod Faultless
use tst.Common.{
  refl, sym, ap, subst, ◌∙◌, inl, inr, zero, suc, ◌+◌, ◌-◌, ◌*◌, ◌/◌, ◌%◌, ◌^◌, ◌<◌, ◌↔◌, ◌⊎◌, ◌++◌,
  ◌==◌, if◌then◌else◌, ◌&&◌, ◌||◌, ℕ, Bool, true, false, Option, none, some, List, [], ◌∷◌, ◌≡◌,
  ◌≢◌, ◌≤◌, get_elem?, set, length,
}
use tst.Common.Dict.{lookup}
use tst.Pool.Types.{Events, tst_suspend, tst_run}
use tst.Pool.State.{Pool, Hooks, Worker, Call, epoll_add, epoll_mod, epoll_del, close_fd, update}
use tst.Pool.Work.{JobIo, work_round, run_idle, leave}
use tst.Pool.Main.{handle_event}
use tst.Pool.Shutdown.{stop_workers}

abbrev pub target : Call → ℕ
target (epoll_add sd out) = sd
target (epoll_mod sd out) = sd
target (epoll_del sd) = sd
target (close_fd sd) = sd

-- What the program relies on of the kernel: a call changes nothing for another descriptor, a
-- descriptor that is closed reports nothing, and with EPOLLONESHOT one that has reported
-- an event is silent. An `EPOLL_CTL_ADD` and an `EPOLL_CTL_MOD` may fail.
pub record Epoll : Type 1 where
  pub State : Type 0
  pub is_armed : State → ℕ → Bool
  pub ctl : Call → State → State
  pub report : ℕ → State → State
  pub ctl_others :
      (c : Call) (s : State) (sd : ℕ) → sd ≢ target c → is_armed (ctl c s) sd ≡ is_armed s sd
  pub ctl_close : (s : State) (sd : ℕ) → is_armed (ctl (close_fd sd) s) sd ≡ false
  pub report_once : (s : State) (sd : ℕ) → is_armed (report sd s) sd ≡ false
  pub report_others :
      (s : State) (sd sd' : ℕ) → sd ≢ sd' → is_armed (report sd s) sd' ≡ is_armed s sd'

-- Where a worker stands: in its loop, behind the test that found `tst_suspend`, in `tst_idle`, or
-- behind its loop.
pub data Phase : Type 0 where
  looping idle_chosen idle_running stopped : Phase

-- `pending` are the events of the last `epoll_wait` that are not yet handled, the next one first.
pub record System (U G : Type 0) (E : Epoll) : Type 0 where
  pub pool : Pool U G
  pub kernel : E.State
  pub pending : List (ℕ × Events)
  pub phase : ℕ → Phase

-- No event for the descriptor is left to handle.
abbrev pub Apart : ℕ → List (ℕ × Events) → Type 0
Apart sd [] = Unit
Apart sd ((sd', ev) ∷ es) = (sd' ≢ sd) × Apart sd es

-- The loop drops an event that is done with; another one is tried again, unless the loop ends.
abbrev pub remaining : Bool → Bool → (ℕ × Events) → List (ℕ × Events) → List (ℕ × Events)
remaining true running e es = es
remaining false true e es = e ∷ es
remaining false false e es = es

abbrev pub phase_after : Bool → Phase
phase_after true = Phase.looping
phase_after false = Phase.stopped

module _ (E : Epoll) where
  -- The newest call stands first.
  abbrev pub ctl_all : List Call → E.State → E.State
  ctl_all [] s = s
  ctl_all (c ∷ cs) s = E.ctl c (ctl_all cs s)

  -- The reports that one `epoll_wait` collects.
  pub data Batch : E.State → List (ℕ × Events) → E.State → Type 0 where
    no_more : {s : E.State} → Batch s [] s
    one_more :
        {s t : E.State} {es : List (ℕ × Events)} (sd : ℕ) (ev : Events)
        → E.is_armed s sd ≡ true
        → Batch (E.report sd s) es t
        → Batch s ((sd, ev) ∷ es) t

module _ {U G : Type 0} (E : Epoll) where
  -- A descriptor that `accept` may give: nothing else goes by it.
  abbrev pub IsUnused : System U G E → ℕ → Type 0
  IsUnused s sd =
      (lookup sd s.pool.connect ≡ none) × (E.is_armed s.kernel sd ≡ false) × Apart sd s.pending

  abbrev pub quiet : Pool U G → Pool U G
  quiet p = record p { calls = [] }

  -- The pool and the kernel behind a step that has led to `q`.
  abbrev pub after : System U G E → Pool U G → System U G E
  after s q = record s { pool = quiet q; kernel = ctl_all E q.calls s.kernel }

  pub data Step (h : Hooks U G) (s : System U G E) : System U G E → Type 0 where
    wait :
        (es : List (ℕ × Events)) {t : E.State}
        → s.pool.main_run ≡ true
        → s.pending ≡ []
        → length es ≤ length s.pool.workers
        → Batch E s.kernel es t
        → Step h s (record s { kernel = t; pending = es })
    handle :
        (sd : ℕ) (ev : Events) (es : List (ℕ × Events)) (accepted queried : Option ℕ) (q : Pool U G)
        (done : Bool)
        → s.pool.main_run ≡ true
        → s.pending ≡ (sd, ev) ∷ es
        → ((client : ℕ) → accepted ≡ some client → IsUnused s client)
        → handle_event h (quiet s.pool) sd ev accepted queried ≡ some (q, done)
        → Step h s (record (after s q) { pending = remaining done q.main_run (sd, ev) es })
    clear : Step h s (record s { pool = record s.pool { main_run = false } })
    stop : s.pool.main_run ≡ false → Step h s (after s (stop_workers (quiet s.pool)))
    round :
        (i : ℕ) (w : Worker) (io : JobIo) (wait_failed : Bool) (q : Pool U G) (goes_on : Bool)
        → s.phase i ≡ Phase.looping
        → get_elem? s.pool.workers i ≡ some w
        → work_round h (quiet s.pool) i w io wait_failed ≡ some (q, goes_on)
        → Step h s (record (after s q) { phase = update s.phase i (phase_after goes_on) })
    choose_idle :
        (i : ℕ) (w : Worker)
        → s.phase i ≡ Phase.looping
        → get_elem? s.pool.workers i ≡ some w
        → w.thread_stat ≡ tst_suspend
        → Step h s (record s { phase = update s.phase i Phase.idle_chosen })
    start_idle :
        (i : ℕ) (w : Worker)
        → s.phase i ≡ Phase.idle_chosen
        → get_elem? s.pool.workers i ≡ some w
        → Step h s (record s {
          pool = record s.pool {
            workers = set s.pool.workers i (record w { thread_stat = tst_run });
          };
          phase = update s.phase i Phase.idle_running;
        })
    end_idle :
        (i : ℕ) (w : Worker)
        → s.phase i ≡ Phase.idle_running
        → get_elem? s.pool.workers i ≡ some w
        → Step h s (record (after s (run_idle h (quiet s.pool) i w)) {
          phase = update s.phase i Phase.looping;
        })
    end_loop :
        (i : ℕ) (w : Worker)
        → s.phase i ≡ Phase.looping
        → s.pool.work_run ≡ false
        → get_elem? s.pool.workers i ≡ some w
        → Step h s
            (record (after s (leave (quiet s.pool) i w)) { phase = update s.phase i Phase.stopped })

  pub data Reach (h : Hooks U G) (first : System U G E) : System U G E → Type 0 where
    start : Reach h first first
    later : {s t : System U G E} → Reach h first s → Step h s t → Reach h first t
