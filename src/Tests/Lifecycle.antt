-- ===== src/Tests/Lifecycle.antt =====
-- A pool that is set up, ended and destroyed.
use tst.Common.{
  All, length, get_elem?, arith, ℕ, refl, none, some, true, false, [], ◌∷◌, zero, suc, ◌*◌, ◌≤◌,
  ◌≡◌, ◌==◌, if◌then◌else◌,
}
use tst.Common.Dict.{lookup}
use tst.Pool.Types.{Events, no_events, tst_suspend, tst_exit}
use tst.Pool.State.{Pool, Worker, epoll_add}
use tst.Pool.Setup.{CreateIo, tcp_ok, bind_ok, bind_eaddrinuse, tcp_create}
use tst.Pool.Setup.Laws.{open_after, with_result, tcp_create_open}
use tst.Pool.Shutdown.{Look, wait_loop, stop_workers}
use tst.Pool.Shutdown.Laws.{wait_loop_end, IsWaiting}
use tst.Pool.Lifecycle.{destroy, create, new_pool, start_main}
use tst.Pool.Lifecycle.Release.{Released, destroy-release}
use tst.Pool.Lifecycle.Laws.{create-IsFirst}
use tst.Pool.System.{looping}
use tst.Pool.System.Safety.{IsFirst}
use tst.Tests.Pool.{pool, worker, pool-IsSound}
use tst.Tests.System.{granting}

-- The second attempt to bind succeeds.
abbrev create_io : CreateIo
create_io = record {
  socket = some 3;
  fcntl_ok = true;
  bind = λ k. if k == 1 then bind_ok else bind_eaddrinuse;
  listen_ok = true;
}

tcp_create_open_example :
    let (r, calls) = tcp_create create_io in open_after (7 ∷ []) calls ≡ with_result r (7 ∷ [])
tcp_create_open_example = tcp_create_open create_io (7 ∷ []) (λ fd e. ground (arith, e))

-- The second worker is at a long job until the third look.
abbrev looks : ℕ → ℕ → Look
looks r i =
    if i == 0
    then record { stat = tst_exit; elapsed = 0 }
    else record { stat = tst_suspend; elapsed = r * 100 }

wait_loop_end_example : (k : ℕ) × (wait_loop 3 0 150 (false ∷ false ∷ []) looks ≡ some k) × (k ≤ 2)
wait_loop_end_example = wait_loop_end 2 2 150 looks (λ i lt. (2, omega arith, ground arith))

abbrev resting : Pool ℕ ℕ
resting = record pool { workers = worker tst_suspend none ∷ worker tst_suspend none ∷ [] }

abbrev told : ℕ → ℕ → Look
told r i = record { stat = tst_exit; elapsed = 0 }

told_all :
    (i : ℕ) (w : Worker)
    → get_elem? (stop_workers resting).workers i ≡ some w
    → (told 0 i).stat ≡ w.thread_stat
unfolding stop_workers
told_all zero w at = ground arith
told_all (suc zero) w at = ground arith
told_all (suc (suc i)) w at = absurd (cc at)

-- The threads end with nothing more to do.
abbrev join_at_once : Pool ℕ ℕ → Pool ℕ ℕ
join_at_once p = record p { work_run = false; workers = [] }

destroy-release_example :
    (r : Pool ℕ ℕ) × (destroy pool join_at_once ≡ some (r, true))
    × Released (join_at_once (record pool { main_run = false })) r
unfolding lookup
destroy-release_example = destroy-release pool join_at_once refl refl pool-IsSound (refl, tt)

abbrev failure : Events
failure = record no_events { epollerr = true }

create-IsFirst_example :
    let (p, result) = create {U = ℕ} {G = ℕ} (new_pool 0) (some (tcp_ok 4)) 5 8 8 false in
    let q = start_main p in
    (result ≡ some 1)
    × (length q.workers ≡ 5)
    × All IsWaiting q.workers
    × (q.calls ≡ epoll_add 4 false ∷ [])
    × IsFirst granting
        (record { pool = q; kernel = λ sd. sd == 4; pending = []; phase = λ i. looping })
create-IsFirst_example =
    create-IsFirst {U = ℕ} {G = ℕ} granting 0 3 5 8 8 (λ sd. sd == 4) (λ sd on. ground arith)
