-- ===== src/Tests/System.antt =====
-- The threads over the pool of the other tests, with both workers at rest, and an epoll that
-- grants all it is asked for.
use tst.Common.{
  Bool-cases, inl, inr, Bool, get_elem?, ℕ, arith, refl, none, some, true, false, [], ◌∷◌, zero,
  suc, ◌≡◌, ◌≢◌, ◌==◌, ◌||◌,
}
use tst.Common.Dict.{lookup}
use tst.Pool.Types.{tst_run, tst_suspend}
use tst.Pool.State.{Pool, Worker, Call, epoll_add, epoll_mod, epoll_del, close_fd, update}
use tst.Pool.Main.{dispatch, handle_event, first_idle, assign_at, on_socket}
use tst.Pool.Work.{serve, transfer}
use tst.Pool.Turns.{Turn, Moves}
use tst.Pool.System.{
  target, Epoll, System, looping, idle_chosen, Reach, start, later, wait, handle, no_more, one_more,
  after, quiet,
}
use tst.Pool.System.Work.{JobsKeepDescriptor}
use tst.Pool.System.Refine.{Refines}
use tst.Pool.System.Live.{IsKnown}
use tst.Pool.System.Safety.{
  Reach-handle_event, IsFirst, first_turns, Reach-Refines, IsExclusive, Reach-IsExclusive,
}
use tst.Pool.Connections.{need_send}
use tst.Pool.System.Resend.{need_send_shared}
use tst.Pool.System.Idle.{idle_race}
use tst.Pool.System.Untouched.{Reach-Keeps}
use tst.Pool.System.Faultless.{NeverRuns, Reach-work_round}
use tst.Pool.Types.{Socket}
use tst.Pool.Work.{JobIo, run_idle, work_round}
use tst.Pool.Main.{note_event}
use tst.Pool.System.{Step, round}
use tst.Tests.Pool.{buffer, hooks, pool, client, arrival, worker, pool-IsSound}

abbrev pub granting_ctl : Call → (ℕ → Bool) → ℕ → Bool
granting_ctl (epoll_add sd out) s = update s sd true
granting_ctl (epoll_mod sd out) s = update s sd true
granting_ctl (epoll_del sd) s = update s sd false
granting_ctl (close_fd sd) s = update s sd false

pub granting_others :
    (c : Call) (s : ℕ → Bool) (sd : ℕ) → sd ≢ target c → granting_ctl c s sd ≡ s sd
granting_others (epoll_add sd out) s sd' ne = ground arith
granting_others (epoll_mod sd out) s sd' ne = ground arith
granting_others (epoll_del sd) s sd' ne = ground arith
granting_others (close_fd sd) s sd' ne = ground arith

pub update_on : (s : ℕ → Bool) (sd : ℕ) → update s sd false sd ≡ false
update_on s sd = ground arith

pub update_off : (s : ℕ → Bool) (sd sd' : ℕ) → sd ≢ sd' → update s sd false sd' ≡ s sd'
update_off s sd sd' ne = ground arith

abbrev pub granting : Epoll
granting = record {
  State = ℕ → Bool;
  is_armed = λ s sd. s sd;
  ctl = granting_ctl;
  report = λ sd s. update s sd false;
  ctl_others = granting_others;
  ctl_close = update_on;
  report_once = update_on;
  report_others = update_off;
}

abbrev resting : Pool ℕ ℕ
resting = record pool { workers = worker tst_suspend none ∷ worker tst_suspend none ∷ [] }

-- The connection's descriptor, and the listening one, are watched.
abbrev first : System ℕ ℕ granting
first = record {
  pool = resting;
  kernel = λ sd. sd == 5 || sd == 3;
  pending = [];
  phase = λ i. looping;
}

first_at_rest : (i : ℕ) (w : Worker) → get_elem? resting.workers i ≡ some w → w.tst_socket ≡ none
first_at_rest zero w at = ground arith
first_at_rest (suc zero) w at = ground arith
first_at_rest (suc (suc i)) w at = absurd (cc at)

first-IsKnown : (sd : ℕ) → first.kernel sd ≡ true → IsKnown resting.sockmain resting.connect sd
unfolding lookup
first-IsKnown sd on = elim (Bool-cases (sd == 5)) [
  | inl hit ↦ inr (1, ground arith)
  | inr miss ↦ inl (ground (arith, on, miss))
]

first-IsFirst : IsFirst granting first
first-IsFirst = record {
  sound = pool-IsSound;
  at_rest = first_at_rest;
  none_pending = refl;
  all_known = first-IsKnown;
}

keeps : JobsKeepDescriptor hooks
unfolding serve transfer
keeps w k g io = ground arith

abbrev reported : System ℕ ℕ granting
reported = record first { kernel = update first.kernel 5 false; pending = (5, arrival) ∷ [] }

abbrev at_work : System ℕ ℕ granting
at_work =
    record (after granting reported (dispatch (quiet granting resting) 1 client arrival 4).0) {
      pending = [];
    }

steps_to_work : Reach granting hooks first at_work
unfolding handle_event on_socket dispatch lookup
steps_to_work =
    later
      (later start
        (wait ((5, arrival) ∷ []) refl refl (omega arith) (one_more 5 arrival refl no_more)))
      (handle 5 arrival [] none (some 4) (dispatch (quiet granting resting) 1 client arrival 4).0
        true refl refl (λ c e. absurd (cc e)) refl)

Reach-Refines_example :
    (σ : ℕ → Turn) × Moves (first_turns granting first) σ × Refines granting at_work σ
Reach-Refines_example =
    Reach-Refines granting hooks first at_work (λ k g. refl) keeps first-IsFirst steps_to_work

Reach-IsExclusive_example : IsExclusive granting at_work 0 1
unfolding dispatch first_idle assign_at
Reach-IsExclusive_example =
    Reach-IsExclusive granting hooks first at_work 0 1 (worker tst_run (some 1)) (λ k g. refl) keeps
      first-IsFirst steps_to_work refl refl

steps_to_report : Reach granting hooks first reported
steps_to_report =
    later start (wait ((5, arrival) ∷ []) refl refl (omega arith) (one_more 5 arrival refl no_more))

Reach-handle_event_example :
    (o : Pool ℕ ℕ × Bool) × (handle_event hooks
        (quiet granting reported.pool)
        5
        arrival
        none
        (some 4)
      ≡ some o)
Reach-handle_event_example =
    Reach-handle_event granting hooks first reported 5 arrival [] none (some 4) (λ k g. refl) keeps
      first-IsFirst steps_to_report refl refl

abbrev choosing : System ℕ ℕ granting
choosing = record reported { phase = update first.phase 0 idle_chosen }

idle_race_example :
    (t : System ℕ ℕ granting) × Reach granting hooks choosing t
    × (t.pending ≡ [])
    × (t.kernel ≡ choosing.kernel)
    × (t.phase 0 ≡ looping)
    × ((w' : Worker) × (get_elem? t.pool.workers 0 ≡ some w')
        × (w'.thread_stat ≡ tst_suspend)
        × (w'.tst_socket ≡ some 1)
        × (w'.exec_count ≡ 0))
unfolding first_idle lookup
idle_race_example =
    idle_race granting hooks choosing 0 5 1 4 (worker tst_suspend none) client arrival [] refl refl
      refl refl refl refl refl refl refl

-- The first worker has the job of descriptor 5, and the handler of another connection asks to send.
abbrev sharing : System ℕ ℕ granting
sharing = record { pool = pool; kernel = λ sd. sd == 3; pending = []; phase = λ i. looping }

need_send_shared_example :
    (t : System ℕ ℕ granting) × Reach granting hooks
      (after granting sharing (need_send (quiet granting pool) 5 true).0)
      t
    × ((w' : Worker) × (get_elem? t.pool.workers 0 ≡ some w') × (w'.tst_socket ≡ some 1))
    × ((v' : Worker) × (get_elem? t.pool.workers 1 ≡ some v') × (v'.tst_socket ≡ some 1))
unfolding first_idle lookup
need_send_shared_example =
    need_send_shared granting hooks sharing 0 1 5 1 4 (worker tst_run (some 1))
      (worker tst_suspend none) client arrival refl refl refl refl refl refl refl (omega arith) refl
      refl refl refl (omega arith)

-- The second worker's idle round, while the first one has a job.
abbrev idle_io : JobIo
idle_io = record { ioctl = none; read = λ n. none; write = λ b. none; elapsed = 0 }

abbrev rested : Pool ℕ ℕ
rested = run_idle hooks (quiet granting at_work.pool) 1 (worker tst_suspend none)

abbrev meanwhile : System ℕ ℕ granting
meanwhile = record (after granting at_work rested) { phase = update at_work.phase 1 looping }

idle_step : Step granting hooks at_work meanwhile
unfolding work_round run_idle dispatch first_idle assign_at
idle_step = round 1 (worker tst_suspend none) idle_io false rested true refl refl refl

-- The client's object, with the number of bytes to read.
abbrev noted : Socket ℕ
noted = record client { recv = some (record buffer { checked_len = 4 }) }

Reach-Keeps_example :
    (meanwhile.pool.heap 1 ≡ some noted) × (lookup noted.sd meanwhile.pool.connect ≡ some 1)
unfolding dispatch first_idle assign_at note_event idle_step
Reach-Keeps_example =
    Reach-Keeps granting hooks first at_work meanwhile 0 1 (worker tst_run (some 1)) noted
      (λ k g. refl) keeps first-IsFirst steps_to_work refl refl refl idle_step (omega arith)

hooks-NeverRuns : NeverRuns hooks
unfolding serve transfer
hooks-NeverRuns = record { jobs = λ w k g io. ground arith; idle = λ g. ground arith }

first_rests : (j : ℕ) (x : Worker) → get_elem? resting.workers j ≡ some x → x.thread_stat ≢ tst_run
first_rests zero x at = ground (arith, at)
first_rests (suc zero) x at = ground (arith, at)
first_rests (suc (suc j)) x at = absurd (cc at)

Reach-work_round_example :
    (o : Pool ℕ ℕ × Bool) × (work_round hooks
        (quiet granting at_work.pool)
        0
        (worker tst_run (some 1))
        idle_io
        false
      ≡ some o)
unfolding dispatch first_idle assign_at
Reach-work_round_example =
    Reach-work_round granting hooks first at_work 0 (worker tst_run (some 1)) idle_io false
      (λ k g. refl) keeps hooks-NeverRuns first-IsFirst first_rests steps_to_work refl refl
