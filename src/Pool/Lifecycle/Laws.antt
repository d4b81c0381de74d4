-- ===== src/Pool/Lifecycle/Laws.antt =====
-- What a pool holds when its threads start, and what it has given back when it is destroyed.
use tst.Common.{
  inl, get_elem?, length, arith, All, Option, ℕ, refl, sym, ap, subst, none, some, true, false, [],
  ◌∷◌, zero, suc, ◌≡◌,
}
use tst.Common.Dict.{lookup}
use tst.Pool.Types.{sock_listen, Events}
use tst.Pool.State.{epoll_add, Pool, Worker, Hooks}
use tst.Pool.Setup.{tcp_ok}
use tst.Pool.Shutdown.Laws.{IsWaiting}
use tst.Pool.Main.{is_sockmain, handle_event, on_listen, on_main}
use tst.Pool.System.{Epoll, looping}
use tst.Pool.System.Safety.{IsFirst}
use tst.Pool.Lifecycle.{new_workers, new_pool, create, start_main, destroy}

module _ {U G : Type 0} where
  on_main_failed :
      (h : Hooks U G) (p : Pool U G) (sd : ℕ) (ev : Events) (accepted queried : Option ℕ)
      → ev.epollin ≡ false
      → ev.epollerr ≡ true
      → on_main h p sd ev accepted queried sock_listen ≡ some (record p { main_run = false }, true)
  unfolding on_main on_listen
  on_main_failed h p sd ev none queried quiet failed = ground arith
  on_main_failed h p sd ev (some client) queried quiet failed = ground arith

  -- Let the listening socket report an error with nothing to accept: the main thread ends its
  -- loop, and `destroy` then does nothing: the socket stays open, and so does every connection.
  destroy-on_listen :
      (h : Hooks U G) (p : Pool U G) (sd : ℕ) (ev : Events) (accepted queried : Option ℕ)
      (joined : Pool U G → Pool U G)
      → p.sockmain ≡ some sd
      → p.socktype ≡ sock_listen
      → ev.epollin ≡ false
      → ev.epollerr ≡ true
      → (q : Pool U G) × (handle_event h p sd ev accepted queried ≡ some (q, true))
        × (destroy q joined ≡ some (q, false))
        × (q.sockmain ≡ some sd)
        × (q.connect ≡ p.connect)
        × (q.calls ≡ p.calls)
  unfolding handle_event destroy
  destroy-on_listen h p sd ev accepted queried joined main listens quiet failed =
      let e : is_sockmain p.sockmain sd ≡ true = ground (arith, main) in
      let f =
        subst
          (λ t. on_main h p sd ev accepted queried t ≡ some (record p { main_run = false }, true))
          (sym listens) (on_main_failed h p sd ev accepted queried quiet failed) in
      (record p { main_run = false }, rw e f, ground arith, main, refl, refl)

new_workers_at_rest :
    (n i j : ℕ) (w : Worker) → get_elem? (new_workers n i) j ≡ some w → w.tst_socket ≡ none
unfolding new_workers
new_workers_at_rest zero i j w at = absurd (cc at)
new_workers_at_rest (suc n) i zero w at = ground arith
new_workers_at_rest (suc n) i (suc j) w at = new_workers_at_rest n (suc i) j w at

new_workers_wait : (n i : ℕ) → All IsWaiting (new_workers n i)
unfolding new_workers
new_workers_wait zero i = tt
new_workers_wait (suc n) i = (omega arith, new_workers_wait n (suc i))

length-new_workers : (n i : ℕ) → length (new_workers n i) ≡ n
unfolding new_workers
length-new_workers zero i = refl
length-new_workers (suc n) i = ap suc (length-new_workers n (suc i))

-- On a cleared pool, with the listening descriptor that `tcp_create` has given, `create` and the
-- start of the main thread lead, where epoll watches no other descriptor, to a state where the
-- threads can begin, with that many workers at rest, and ask epoll for the listening descriptor
-- alone.
pub create-IsFirst :
    {U G : Type 0} (E : Epoll) (g : G) (fd n recv_size send_size : ℕ) (kernel : E.State)
    → ((sd : ℕ) → E.is_armed kernel sd ≡ true → sd ≡ suc fd)
    → let (p, result) =
        create {U = U} (new_pool g) (some (tcp_ok (suc fd))) n recv_size send_size false in
      let q = start_main p in
      (result ≡ some 1)
      × (length q.workers ≡ n)
      × All IsWaiting q.workers
      × (q.calls ≡ epoll_add (suc fd) false ∷ [])
      × IsFirst E (record { pool = q; kernel = kernel; pending = []; phase = λ i. looping })
unfolding create new_pool start_main lookup
create-IsFirst E g fd n recv_size send_size kernel only = (
  refl,
  length-new_workers n 0,
  new_workers_wait n 0,
  refl,
  record {
    sound = record {
      owns = λ sd a e. absurd (cc e);
      apart = λ sd sd' a e f. absurd (cc e);
      fresh = λ a le. refl;
    };
    at_rest = λ i w at. new_workers_at_rest n 0 i w at;
    none_pending = refl;
    all_known = λ sd on. inl (ap some (sym (only sd on)));
  },
)
