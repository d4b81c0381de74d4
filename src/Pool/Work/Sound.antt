-- ===== src/Pool/Work/Sound.antt =====
-- A job keeps the map of connections and the heap in agreement.
use tst.Common.{some, inl, inr, ◌≡◌, ℕ, Bool-cases, ltb}
use tst.Pool.Types.{Socket, Stat, tst_disconnect, tst_send}
use tst.Pool.State.{Pool, Hooks, Worker, update}
use tst.Pool.Connections.Laws.{IsSound, closesocket-IsSound, Agrees-update}
use tst.Pool.Work.{JobIo, serve, settle, run_job}

module _ {U G : Type 0} (h : Hooks U G) where
  settle-IsSound :
      (p : Pool U G) (k : Socket U) (next : Stat) → IsSound p → IsSound (settle h p k next).0
  unfolding settle
  settle-IsSound p k tst_disconnect v = elim (Bool-cases (ltb 0 k.sd)) [
    | inl e ↦ rw e (closesocket-IsSound h p k.sd v)
    | inr e ↦ rw e v
  ]
  settle-IsSound p k tst_send v = elim (Bool-cases (ltb 0 k.sd)) [ inl e ↦ rw e v | inr e ↦ rw e v ]
  settle-IsSound p k _ v = elim (Bool-cases (ltb 0 k.sd)) [ inl e ↦ rw e v | inr e ↦ rw e v ]

  -- A job whose functions leave the socket's descriptor alone keeps the map of connections and the
  -- heap in agreement, also where it closes the connection.
  pub run_job-IsSound :
      (p : Pool U G) (i : ℕ) (w : Worker) (a : ℕ) (k : Socket U) (io : JobIo)
      → IsSound p
      → p.heap a ≡ some k
      → (serve h w k p.shared io).0.sd ≡ k.sd
      → IsSound (run_job h p i w a k io)
  unfolding run_job
  run_job-IsSound p i w a k io v held same =
      let (k', g', next) = serve h w k p.shared io in
      settle-IsSound (record p { heap = update p.heap a (some k'); shared = g' }) k' next
        (Agrees-update p.connect p.heap p.next_address a k k' v held same)
