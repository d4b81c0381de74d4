-- ===== src/Pool/State.antt =====
-- tst/tst.h: `TST_THREAD_INFO` and `tstpool`, and what the pool asks of the kernel.
-- `TST_SOCKET` objects live on a heap, so that the map and a worker may hold one by its address.
-- `U` is the type of `user_data`, `G` what the program's handlers share. Clocks, thread handles and
-- mutexes have no field: an elapsed time is an argument of the step that measures it.
use tst.Common.{ℕ, Bool, Option, none, some, List, ◌∷◌, ◌==◌, if◌then◌else◌}
use tst.Common.Dict.{lookup}
use tst.Pool.Types.{Stat, SocketType, Socket}

-- A system call on a descriptor, in the order in which they are made. `out` says whether
-- EPOLLOUT was asked for beside the base events, all of them with EPOLLONESHOT.
pub data Call : Type 0 where
  epoll_add : (sd : ℕ) (out : Bool) → Call
  epoll_mod : (sd : ℕ) (out : Bool) → Call
  epoll_del : (sd : ℕ) → Call
  close_fd : (sd : ℕ) → Call

pub record Worker : Type 0 where
  pub thread_no : ℕ
  pub thread_stat : Stat
  pub tst_socket : Option ℕ
  pub exit_code : ℕ
  pub sum_time : ℕ
  pub most_elapsed : ℕ
  pub exec_count : ℕ
  pub idle_count : ℕ

-- `sockmain` is `none` for INVALID_SOCKET. The newest call stands first in `calls`.
pub record Pool (U G : Type 0) : Type 0 where
  pub main_thread : Bool
  pub main_run : Bool
  pub work_run : Bool
  pub socktype : SocketType
  pub sockmain : Option ℕ
  pub connect : List (ℕ × ℕ)
  pub heap : ℕ → Option (Socket U)
  pub next_address : ℕ
  pub workers : List Worker
  pub recv_buf_size : ℕ
  pub send_buf_size : ℕ
  pub shared : G
  pub calls : List Call

-- The user's functions: `m_fconnected`, `m_fdisconnected`, `m_fmain` and `m_fmostelapsed`, `none`
-- where not set, and `tst_func` and `tst_idle`.
pub record Hooks (U G : Type 0) : Type 0 where
  pub fconnected : Option (Socket U → G → Socket U × G × Stat)
  pub fdisconnected : Option (Option (ℕ × Socket U) → G → G)
  pub fmain : Option (Option (ℕ × Socket U) → G → G × Stat)
  pub fmostelapsed : Option (Socket U → G → Socket U × G)
  pub tst_func : Option (Socket U → G → Socket U × G × Stat)
  pub tst_idle : Option (G → G × Stat)

abbrev pub update {ℓ} : {A : Type ℓ} → (ℕ → A) → ℕ → A → ℕ → A
update f a v b = if a == b then v else f b

module _ {U G : Type 0} where
  abbrev pub call : Pool U G → Call → Pool U G
  call p c = record p { calls = c ∷ p.calls }

  -- The object at an address, with its address, as a pointer gives it.
  abbrev pub deref : Pool U G → Option ℕ → Option (ℕ × Socket U)
  deref p none = none
  deref p (some a) = elim (p.heap a) [ none ↦ none | some k ↦ some (a, k) ]

  abbrev pub find : Pool U G → ℕ → Option (ℕ × Socket U)
  find p sd = deref p (lookup sd p.connect)
