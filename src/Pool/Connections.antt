-- ===== src/Pool/Connections.antt =====
-- tst/tst.h and tst/tst.cpp: `addsocket`, `closesocket` and `need_send`.
pub mod Laws
use tst.Common.{
  refl, sym, ap, subst, ◌∙◌, inl, inr, zero, ◌-◌, ◌*◌, ◌/◌, ◌%◌, ◌^◌, ◌≤◌, ◌≡◌, ◌≢◌, ◌↔◌, ◌⊎◌, ◌++◌,
  ℕ, suc, ◌+◌, ◌<◌, Bool, true, false, not, ◌||◌, ◌&&◌, Option, none, some, List, [], ◌∷◌, ltb,
  ◌==◌, if◌then◌else◌,
}
use tst.Common.Dict.{lookup, insert, erase}
use tst.Pool.Types.{Socket, TstData, calloc_data}
use tst.Pool.State.{Pool, Hooks, Call, epoll_mod, epoll_del, close_fd, update, call, deref, find}

-- `addsocket` gives a socket that has no buffer the memory for one.
unfoldable pub ensure_data : Option TstData → ℕ → Option TstData
unfolding calloc_data
ensure_data (some d) size = some d
ensure_data none size = if size == 0 then none else some (calloc_data size)

-- `delete socket`, where there is one.
abbrev pub delete : {U : Type 0} → (ℕ → Option (Socket U)) → Option ℕ → ℕ → Option (Socket U)
delete heap none = heap
delete heap (some a) = update heap a none

module _ {U G : Type 0} where
  -- On the socket at address `a`.
  unfoldable pub addsocket : Pool U G → ℕ → Socket U → Pool U G
  unfolding ensure_data
  addsocket p a k =
      let k' = record k {
        recv = ensure_data k.recv p.recv_buf_size;
        send = ensure_data k.send p.send_buf_size;
      } in
      record p { heap = update p.heap a (some k'); connect = insert k.sd a p.connect }

  abbrev pub run_disconnected : Hooks U G → Option (ℕ × Socket U) → G → G
  run_disconnected h k g = elim h.fdisconnected [ none ↦ g | some f ↦ f k g ]

  -- What was left to read is read and dropped before the descriptor is closed.
  unfoldable pub closesocket : Hooks U G → Pool U G → ℕ → Pool U G
  closesocket h p sd = record p {
    connect = erase sd p.connect;
    shared = run_disconnected h (find p sd) p.shared;
    heap = delete p.heap (lookup sd p.connect);
    calls = if ltb 0 sd then close_fd sd ∷ epoll_del sd ∷ p.calls else p.calls;
  }

  -- `mod_ok` is whether `epoll_ctl` takes the change.
  unfoldable pub need_send : Pool U G → ℕ → Bool → Pool U G × Bool
  need_send p sd mod_ok =
      if not p.main_thread || not p.main_run
      then (p, false)
      else (call p (epoll_mod sd true), mod_ok)
