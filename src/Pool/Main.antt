-- ===== src/Pool/Main.antt =====
-- tst/tst.cpp, `tst_main`: what the main thread does with one event that `epoll_wait` has given it.
pub mod Laws
pub mod Sound
use tst.Common.{
  refl, sym, ap, subst, ◌∙◌, inl, inr, zero, ◌-◌, ◌*◌, ◌/◌, ◌%◌, ◌^◌, ◌≤◌, ◌<◌, ◌≡◌, ◌≢◌, ◌↔◌, ◌⊎◌,
  ◌++◌, ℕ, suc, ◌+◌, Bool, true, false, ◌&&◌, ◌||◌, Option, none, some, List, [], ◌∷◌, set, ltb,
  ◌==◌, if◌then◌else◌,
}
use tst.Common.Dict.{lookup}
use tst.Pool.Types.{
  Socket, TstData, SocketType, sock_sub, sock_listen, above_listen, new_socket, Events, readable,
  Stat, stat_code, tst_suspend, tst_run, tst_send, tst_reconnected,
}
use tst.Pool.State.{Pool, Hooks, Worker, Call, epoll_add, epoll_mod, epoll_del, update, call, find}
use tst.Pool.Connections.{addsocket, closesocket}

-- The first worker that waits for work, by its number.
unfoldable pub first_idle : List Worker → Option ℕ
first_idle [] = none
first_idle (w ∷ ws) =
    if ltb (stat_code w.thread_stat) (stat_code tst_run)
    then some 0
    else elim (first_idle ws) [ none ↦ none | some i ↦ some (suc i) ]

abbrev pub assign_worker : ℕ → Worker → Worker
assign_worker a w = record w { thread_stat = tst_run; tst_socket = some a }

unfoldable pub assign_at : ℕ → ℕ → List Worker → List Worker
assign_at i a [] = []
assign_at zero a (w ∷ ws) = assign_worker a w ∷ ws
assign_at (suc i) a (w ∷ ws) = w ∷ assign_at i a ws

abbrev set_checked : ℕ → TstData → TstData
set_checked n d = record d { checked_len = n }

-- A connection that has ended: readable with nothing to read, an error, or hung up.
abbrev pub is_closed : Events → Option ℕ → Bool
is_closed ev none = true
is_closed ev (some n) = (ev.epollin && n == 0) || ev.epollhup || ev.epollrdhup || ev.epollerr

abbrev pub or_zero : Option ℕ → ℕ
or_zero none = 0
or_zero (some n) = n

abbrev pub is_reconnected : Stat → Bool
is_reconnected tst_reconnected = true
is_reconnected _ = false

abbrev pub is_sockmain : Option ℕ → ℕ → Bool
is_sockmain none sd = false
is_sockmain (some m) sd = m == sd

module _ {U : Type 0} where
  abbrev note_send : Socket U → Events → ℕ → Option TstData → Socket U
  note_send k ev n none = k
  note_send k ev n (some d) = if ev.epollout then record k { send = some (set_checked n d) } else k

  abbrev note_data : Socket U → Events → ℕ → Option TstData → Socket U
  note_data k ev n none = note_send k ev n k.send
  note_data k ev n (some d) =
      if readable ev then record k { recv = some (set_checked n d) } else note_send k ev n k.send

  -- The event and the number of bytes, in the object.
  unfoldable pub note_event : Socket U → Events → ℕ → Socket U
  note_event k ev n = note_data (record k { events = ev }) ev n k.recv

module _ {U G : Type 0} where
  -- The job for the socket at `a` goes to the first worker that waits; the flag is false where all
  -- are at work, and the event is then tried again.
  unfoldable pub dispatch : Pool U G → ℕ → Socket U → Events → ℕ → Pool U G × Bool
  unfolding first_idle assign_at note_event
  dispatch p a k ev n = elim (first_idle p.workers) [
    | none ↦ (p, false)
    | some i ↦ (
      record p {
        workers = assign_at i a p.workers;
        heap = update p.heap a (some (note_event k ev n));
      },
      true,
    )
  ]

  abbrev pub run_connected : Hooks U G → Socket U → G → Socket U × G × Stat
  run_connected h k g = elim h.fconnected [ none ↦ (k, g, tst_suspend) | some f ↦ f k g ]

  -- A new connection is watched, or closed again, by what the user's function returned.
  unfoldable pub watch_or_close : Hooks U G → Pool U G → ℕ → Stat → Pool U G
  watch_or_close h p sd next =
      if ltb (stat_code next) (stat_code tst_reconnected)
      then call p (epoll_add sd (stat_code next == stat_code tst_send))
      else closesocket h p sd

  -- The new connection, the object `k` at address `a`, is shown to the user's function.
  unfoldable pub admit : Hooks U G → Pool U G → ℕ → ℕ → Option (Socket U) → Pool U G
  unfolding watch_or_close
  admit h p sd a none = p
  admit h p sd a (some k) =
      let (k', g, next) = run_connected h k p.shared in
      watch_or_close h (record p { heap = update p.heap a (some k'); shared = g }) sd next

  -- A connection that is still registered under the new descriptor is closed first.
  abbrev pub drop_stale : Hooks U G → Pool U G → ℕ → Pool U G
  drop_stale h p sd = elim (lookup sd p.connect) [ none ↦ p | some _ ↦ closesocket h p sd ]

  -- The object for an accepted connection, at a new address, in the map.
  unfoldable pub register : Hooks U G → Pool U G → ℕ → Pool U G
  register h p sd =
      addsocket (drop_stale h (record p { next_address = suc p.next_address }) sd) p.next_address
        (record (new_socket p.recv_buf_size p.send_buf_size) { sd = sd; type = sock_sub })

  -- An accepted connection `sd`.
  unfoldable pub accept_client : Hooks U G → Pool U G → ℕ → Pool U G
  unfolding register admit
  accept_client h p sd =
      let q = register h p sd in admit h q sd p.next_address (q.heap p.next_address)

  -- The main socket's event, where it listens. `accepted` is the new descriptor, `none` for a
  -- result that is not positive.
  unfoldable pub on_listen : Hooks U G → Pool U G → ℕ → Events → Option ℕ → Pool U G
  unfolding accept_client
  on_listen h p sd ev none =
      if ev.epollin
      then p
      else if ev.epollhup || ev.epollrdhup || ev.epollerr
      then record p { main_run = false }
      else p
  on_listen h p sd ev (some client) =
      if ev.epollin
      then call (accept_client h p client) (epoll_mod sd false)
      else if ev.epollhup || ev.epollrdhup || ev.epollerr
      then record p { main_run = false }
      else p

  -- Any other event: the connection is closed, or its job is handed to a worker. `queried` is what
  -- the `ioctl` for the bytes in the kernel's buffer gives; where the event asks for none, it is the
  -- value of an earlier round. The flag says whether the event is done with, and `none` is the fault
  -- of a descriptor that the map does not hold.
  unfoldable pub on_socket :
      Hooks U G → Pool U G → Bool → ℕ → Events → Option ℕ → Option (Pool U G × Bool)
  unfolding dispatch
  on_socket h p is_main sd ev queried =
      if is_closed ev queried
      then some (
          if is_main
          then (record (closesocket h p sd) { main_run = false }, false)
          else (closesocket h p sd, true))
      else elim (find p sd) [
        | none ↦ none
        | some (a, k) ↦ some (dispatch p a k ev (or_zero queried))
      ]

  abbrev pub ask_main : Hooks U G → Pool U G → ℕ → Pool U G × Stat
  ask_main h p sd = elim h.fmain [
    | none ↦ (p, tst_suspend)
    | some f ↦ let (g, next) = f (find p sd) p.shared in (record p { shared = g }, next)
  ]

  -- A main socket that the program has connected itself: `m_fmain` sees the event first.
  unfoldable pub on_client : Hooks U G → Pool U G → ℕ → Events → Option ℕ → Option (Pool U G × Bool)
  unfolding on_socket
  on_client h p sd ev queried =
      let (q, next) = ask_main h p sd in
      if is_reconnected next then some (q, false) else on_socket h q true sd ev queried

  unfoldable pub on_main :
      Hooks U G
      → Pool U G
      → ℕ
      → Events
      → Option ℕ
      → Option ℕ
      → SocketType
      → Option (Pool U G × Bool)
  unfolding on_listen on_client
  on_main h p sd ev accepted queried sock_listen = some (on_listen h p sd ev accepted, true)
  on_main h p sd ev accepted queried t =
      if above_listen t then on_client h p sd ev queried else on_socket h p true sd ev queried

  -- One event of the loop.
  unfoldable pub handle_event :
      Hooks U G → Pool U G → ℕ → Events → Option ℕ → Option ℕ → Option (Pool U G × Bool)
  unfolding on_main
  handle_event h p sd ev accepted queried =
      if is_sockmain p.sockmain sd
      then on_main h p sd ev accepted queried p.socktype
      else on_socket h p false sd ev queried
