-- ===== src/Ami/Login/Laws.antt =====
-- What a login leaves behind, and where it waits without end.
use tst.Common.{
  take-append-drop, arith, refl, sym, ap, ◌∙◌, none, some, true, false, [], ◌∷◌, zero, suc, ◌+◌,
  ◌%◌, ◌≤◌, ◌<◌, ◌≡◌, ◌++◌,
}
use tst.Common.Dict.{lookup}
use tst.Pool.Types.{Socket, TstData, u32_mod}
use tst.Pool.State.{Pool, epoll_add}
use tst.Pool.Connections.{addsocket}
use tst.Pool.Connections.Laws.{IsSound, addsocket-IsSound, lookup-addsocket}
use tst.Pool.Setup.{SetupCall, ConnectIo, TcpResult, tcp_ok, tcp_error, tcp_connect}
use tst.Pool.Setup.Laws.{with_result, with_result, open_after, IsNotOpen, tcp_connect_open}
use tst.Ami.Event.{AmiManage}
use tst.Ami.Login.{
  write_at, leb, take, drop, replicate, length, Bytes, Option, List, Bool, ℕ, Login, LoginStep,
  going, logged_in, given_up, fault, LoginIo, LoginResult, returned, running, faulted, read_all,
  hear_answer, login_round, login_loop, login_end, connected_login, ami_login, ami_object,
  join_pool, new_login, line_ended,
}

module _ {G : Type 0} where
  login_end-calls :
      (p : Pool AmiManage G) (a sd : ℕ) (calls calls' : List SetupCall) (s : LoginStep)
      (q : Pool AmiManage G) (held : Option ℕ)
      → login_end p a sd calls s ≡ returned q held calls'
      → calls' ≡ calls
  unfolding login_end
  login_end-calls p a sd calls calls' (going l) q held e = absurd (cc e)
  login_end-calls p a sd calls calls' (logged_in l) q held e = cc e
  login_end-calls p a sd calls calls' given_up q held e = cc e
  login_end-calls p a sd calls calls' fault q held e = absurd (cc e)

  connected_login-calls :
      (p : Pool AmiManage G) (a : ℕ) (r : TcpResult) (calls calls' : List SetupCall) (ready : Bool)
      (io : LoginIo) (chunks : List (Option Bytes)) (q : Pool AmiManage G) (held : Option ℕ)
      → connected_login p a r calls ready io chunks ≡ returned q held calls'
      → calls' ≡ calls
  unfolding connected_login
  connected_login-calls p a (tcp_ok (suc fd)) calls calls' true io chunks q held e =
      login_end-calls p a (suc fd) calls calls' _ q held e
  connected_login-calls p a (tcp_ok (suc fd)) calls calls' false io chunks q held e = cc e
  connected_login-calls p a (tcp_ok zero) calls calls' ready io chunks q held e = cc e
  connected_login-calls p a (tcp_error code) calls calls' ready io chunks q held e = cc e

  -- Once `tcp_connect` has given a descriptor, which was not open before, a login that gives up
  -- leaves it open, with no object and no entry of the map that leads to it.
  ami_login_leaks :
      (p q : Pool AmiManage G) (connect : ConnectIo) (ready : Bool) (io : LoginIo)
      (chunks : List (Option Bytes)) (fd : ℕ) (fds : List ℕ) (calls : List SetupCall)
      → (tcp_connect connect).0 ≡ tcp_ok fd
      → ((x : ℕ) → connect.socket ≡ some x → IsNotOpen x fds)
      → ami_login p none connect ready io chunks ≡ returned q none calls
      → open_after fds calls ≡ fd ∷ fds
  unfolding ami_login
  ami_login_leaks p q connect ready io chunks fd fds calls ok new e =
      let f =
        connected_login-calls (record p { next_address = suc p.next_address }) p.next_address
          (tcp_connect connect).0 (tcp_connect connect).1 calls ready io chunks q none e in
      ap (open_after fds) f ∙ tcp_connect_open connect fds new ∙ ap (λ r. with_result r fds) ok

  -- A login's result: with no socket, the map and the calls are as before; with one, its object
  -- has the address, is registered, and is watched.
  abbrev pub LoginIsSound : Pool AmiManage G → LoginResult G → Type 0
  LoginIsSound p running = Unit
  LoginIsSound p faulted = Unit
  LoginIsSound p (returned q none calls) = IsSound q × (q.connect ≡ p.connect) × (q.calls ≡ p.calls)
  LoginIsSound p (returned q (some a) calls) =
      IsSound q
      × ((k : Socket AmiManage) × (q.heap a ≡ some k)
          × (lookup k.sd q.connect ≡ some a)
          × (q.calls ≡ epoll_add k.sd false ∷ p.calls))

  calls-addsocket :
      (p : Pool AmiManage G) (a : ℕ) (k : Socket AmiManage) → (addsocket p a k).calls ≡ p.calls
  unfolding addsocket
  calls-addsocket p a k = refl

  join_pool-IsSound :
      (p : Pool AmiManage G) (a sd : ℕ) (l : Login)
      → IsSound p
      → p.heap a ≡ none
      → a < p.next_address
      → LoginIsSound p (returned (join_pool p a sd l) (some a) [])
  unfolding join_pool
  join_pool-IsSound p a sd l v free below =
      let k = ami_object sd l in
      let w = addsocket-IsSound p a k v free below in
      let e : lookup sd (addsocket p a k).connect ≡ some a =
        ground (arith, lookup-addsocket p a k sd) in
      let (j, alive, named) = w.owns sd a e in
      (
        w,
        (
          j,
          alive,
          ap (λ x. lookup x (addsocket p a k).connect) named ∙ e,
          ap (λ x. epoll_add sd false ∷ x) (calls-addsocket p a k)
              ∙ ap (λ x. epoll_add x false ∷ p.calls) (sym named),
        ),
      )

  login_end-IsSound :
      (p : Pool AmiManage G) (a sd : ℕ) (calls : List SetupCall) (s : LoginStep)
      → IsSound p
      → p.heap a ≡ none
      → a < p.next_address
      → LoginIsSound p (login_end p a sd calls s)
  unfolding login_end
  login_end-IsSound p a sd calls (going l) v free below = tt
  login_end-IsSound p a sd calls (logged_in l) v free below =
      join_pool-IsSound p a sd l v free below
  login_end-IsSound p a sd calls given_up v free below = (v, refl, refl)
  login_end-IsSound p a sd calls fault v free below = tt

  connected_login-IsSound :
      (p : Pool AmiManage G) (a : ℕ) (r : TcpResult) (calls : List SetupCall) (ready : Bool)
      (io : LoginIo) (chunks : List (Option Bytes))
      → IsSound p
      → p.heap a ≡ none
      → a < p.next_address
      → LoginIsSound p (connected_login p a r calls ready io chunks)
  unfolding connected_login
  connected_login-IsSound p a (tcp_ok (suc fd)) calls true io chunks v free below =
      login_end-IsSound p a (suc fd) calls (login_loop io new_login chunks) v free below
  connected_login-IsSound p a (tcp_ok (suc fd)) calls false io chunks v free below = (v, refl, refl)
  connected_login-IsSound p a (tcp_ok zero) calls ready io chunks v free below = (v, refl, refl)
  connected_login-IsSound p a (tcp_error code) calls ready io chunks v free below = (v, refl, refl)

  -- A login on a pool whose map and heap agree keeps them in agreement. Where it holds a socket
  -- behind it, that socket is registered under its descriptor and epoll is asked to watch it;
  -- where it gives up, the map and the calls are as before.
  ami_login-IsSound :
      (p : Pool AmiManage G) (connect : ConnectIo) (ready : Bool) (io : LoginIo)
      (chunks : List (Option Bytes))
      → IsSound p
      → LoginIsSound p (ami_login p none connect ready io chunks)
  unfolding ami_login
  ami_login-IsSound p connect ready io chunks v =
      let q = record p { next_address = suc p.next_address } in
      let w : IsSound q = record {
        owns = v.owns;
        apart = v.apart;
        fresh = λ a le. v.fresh a (omega arith);
      } in
      connected_login-IsSound q p.next_address (tcp_connect connect).0 (tcp_connect connect).1 ready
        io chunks w (v.fresh p.next_address (omega arith)) (omega arith)

read_all_nothing :
    (d : TstData) → d.com_len ≤ length d.s → d.com_len < u32_mod → read_all d (some []) ≡ some d
unfolding read_all
read_all_nothing d within small =
    let e : (d.com_len + 0) % u32_mod ≡ d.com_len = omega arith in
    let f : drop (d.com_len + 0) d.s ≡ drop d.com_len d.s = ap (λ n. drop n d.s) (omega arith) in
    let g = ap (λ x. take d.com_len d.s ++ x) f ∙ take-append-drop d.com_len d.s in
    let h : leb (d.com_len + 0) (length d.s) ≡ true = ground arith in
    rw h (
      ap (λ n. some (record d { com_len = n; s = write_at d.s d.com_len [] })) e
      ∙ ap (λ x. some (record d { s = x })) g)

login_round_unended :
    (io : LoginIo) (l : Login)
    → l.connected ≡ true
    → 22 ≤ l.recv.com_len
    → line_ended l.recv ≡ some false
    → login_round io l ≡ going l
unfolding login_round hear_answer
login_round_unended io l on many unended = ground (arith, on, many, unended)

-- Once 22 bytes or more have come behind the greeting, and their last two are no end of a line, a
-- peer that sends no more keeps the login in its loop, for any number of rounds: no try is
-- counted.
pub login_loop_stuck :
    (io : LoginIo) (l : Login) (n : ℕ)
    → l.connected ≡ true
    → 22 ≤ l.recv.com_len
    → l.recv.com_len < u32_mod
    → l.recv.com_len ≤ length l.recv.s
    → line_ended l.recv ≡ some false
    → login_loop io l (replicate n (some [])) ≡ going l
unfolding login_loop
login_loop_stuck io l zero on many small within unended = refl
login_loop_stuck io l (suc n) on many small within unended =
    let e = read_all_nothing l.recv within small in
    let f = login_round_unended io l on many unended in
    rw (e, login_loop) (rw (f, login_loop) (login_loop_stuck io l n on many small within unended))
