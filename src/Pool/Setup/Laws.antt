-- ===== src/Pool/Setup/Laws.antt =====
-- What the set-up of a socket leaves open, and how often it tries.
use tst.Common.{
  arith, All, Option-cases, Bool-cases, ℕ, List, refl, ap, ◌∙◌, some, true, [], ◌∷◌, inl, inr, zero,
  suc, ◌+◌, ◌≤◌, ◌<◌, ◌≡◌, ◌≢◌, ◌↔◌, ◌++◌, ◌==◌, if◌then◌else◌,
}
use tst.Pool.Setup.{
  SetupCall, opened, set_up, set_nonblock, tried_bind, listened, connected, slept, closed,
  TcpResult, tcp_ok, tcp_error, BindAnswer, bind_eaddrinuse, CreateIo, is_bound, between, bind_loop,
  after_bind, with_socket, tcp_create, ConnectIo, resolve, connect_to, tcp_connect,
}

unfoldable pub drop_fd : ℕ → List ℕ → List ℕ
drop_fd fd [] = []
drop_fd fd (x ∷ xs) = let rest = drop_fd fd xs in if x == fd then rest else x ∷ rest

-- The descriptors that are open after the calls, where those of the list are open before.
unfoldable pub open_after : List ℕ → List SetupCall → List ℕ
unfolding drop_fd
open_after fds [] = fds
open_after fds (opened fd ∷ cs) = open_after (fd ∷ fds) cs
open_after fds (closed fd ∷ cs) = open_after (drop_fd fd fds) cs
open_after fds (_ ∷ cs) = open_after fds cs

abbrev pub IsNotOpen : ℕ → List ℕ → Type 0
IsNotOpen fd fds = All (λ x. x ≢ fd) fds

drop_fd_away : (fd : ℕ) (fds : List ℕ) → IsNotOpen fd fds → drop_fd fd fds ≡ fds
unfolding drop_fd
drop_fd_away fd [] new = refl
drop_fd_away fd (x ∷ xs) (ne, new) = ground (arith, drop_fd_away fd xs new, ne)

drop_fd_new : (fd : ℕ) (fds : List ℕ) → IsNotOpen fd fds → drop_fd fd (fd ∷ fds) ≡ fds
unfolding drop_fd
drop_fd_new fd fds new = ground (arith, drop_fd_away fd fds new)

open_after-append :
    (fds : List ℕ) (cs ds : List SetupCall)
    → open_after fds (cs ++ ds) ≡ open_after (open_after fds cs) ds
unfolding open_after
open_after-append fds [] ds = refl
open_after-append fds (opened fd ∷ cs) ds = open_after-append (fd ∷ fds) cs ds
open_after-append fds (closed fd ∷ cs) ds = open_after-append (drop_fd fd fds) cs ds
open_after-append fds (set_up fd ∷ cs) ds = open_after-append fds cs ds
open_after-append fds (set_nonblock fd ∷ cs) ds = open_after-append fds cs ds
open_after-append fds (tried_bind fd ∷ cs) ds = open_after-append fds cs ds
open_after-append fds (listened fd ∷ cs) ds = open_after-append fds cs ds
open_after-append fds (connected fd a ∷ cs) ds = open_after-append fds cs ds
open_after-append fds (slept ∷ cs) ds = open_after-append fds cs ds

open_after-between :
    (fds : List ℕ) (fd : ℕ) (b : BindAnswer) (cs : List SetupCall)
    → open_after fds (between fd b ++ cs) ≡ open_after fds cs
unfolding open_after
open_after-between fds fd bind_eaddrinuse cs = refl
open_after-between fds fd _ cs = refl

open_after-bind_loop :
    (left retry fd : ℕ) (bind : ℕ → BindAnswer) (fds : List ℕ)
    → open_after fds (bind_loop left retry fd bind).1 ≡ fds
unfolding open_after bind_loop
open_after-bind_loop zero retry fd bind fds = refl
open_after-bind_loop (suc left) retry fd bind fds = elim (Bool-cases (is_bound (bind retry))) [
  | inl e ↦ rw e refl
  | inr e ↦
      rw e (
        open_after-between fds fd (bind retry) _
        ∙ open_after-bind_loop left (suc retry) fd bind fds)
]

-- A list of open descriptors with the one that a result carries.
abbrev pub with_result : TcpResult → List ℕ → List ℕ
with_result (tcp_ok fd) fds = fd ∷ fds
with_result (tcp_error code) fds = fds

with_socket_open :
    (fd : ℕ) (io : CreateIo) (fds : List ℕ)
    → IsNotOpen fd fds
    → let (r, calls) = with_socket fd io in open_after fds calls ≡ with_result r fds
unfolding with_socket after_bind open_after
with_socket_open fd io fds new =
    let new' = drop_fd_new fd fds new in
    let kept = open_after-bind_loop 10 0 fd io.bind (fd ∷ fds) in
    elim (Bool-cases io.fcntl_ok) [
      | inl f ↦ elim (Bool-cases (bind_loop 10 0 fd io.bind).0) [
        | inl b ↦ elim (Bool-cases io.listen_ok) [
          | inl l ↦ rw (f, b, l) (rw (open_after-append (fd ∷ fds)) kept)
          | inr l ↦ rw (f, b, l) (rw (open_after-append (fd ∷ fds)) (ap (drop_fd fd) kept ∙ new'))
        ]
        | inr b ↦ rw (f, b) (rw (open_after-append (fd ∷ fds)) (ap (drop_fd fd) kept ∙ new'))
      ]
      | inr f ↦ rw f new'
    ]

-- No descriptor leaks from `tcp_create`, with whatever answers of the kernel: where the descriptor
-- that it gets is not open before, the returned one is open behind it beside those that were, and
-- behind an error just those that were.
pub tcp_create_open :
    (io : CreateIo) (fds : List ℕ)
    → ((fd : ℕ) → io.socket ≡ some fd → IsNotOpen fd fds)
    → let (r, calls) = tcp_create io in open_after fds calls ≡ with_result r fds
unfolding tcp_create open_after
tcp_create_open io fds new = elim (Option-cases io.socket) [
  | inl e ↦ rw e refl
  | inr (fd, e) ↦ rw e (with_socket_open fd io fds (new fd e))
]

connect_to_open :
    (io : ConnectIo) (a fd : ℕ) (fds : List ℕ)
    → IsNotOpen fd fds
    → let (r, calls) = connect_to io a fd in open_after fds calls ≡ with_result r fds
unfolding connect_to open_after
connect_to_open io a fd fds new =
    let new' = drop_fd_new fd fds new in
    elim (Bool-cases io.connect_ok) [
      | inl c ↦ elim (Bool-cases io.fcntl_ok) [ inl f ↦ rw (c, f) refl | inr f ↦ rw (c, f) new' ]
      | inr c ↦ rw c new'
    ]

-- The same of `tcp_connect`.
pub tcp_connect_open :
    (io : ConnectIo) (fds : List ℕ)
    → ((fd : ℕ) → io.socket ≡ some fd → IsNotOpen fd fds)
    → let (r, calls) = tcp_connect io in open_after fds calls ≡ with_result r fds
unfolding tcp_connect open_after
tcp_connect_open io fds new = elim (Option-cases (resolve io)) [
  | inl e ↦ rw (e, tcp_connect) refl
  | inr (a, e) ↦ elim (Option-cases io.socket) [
    | inl f ↦ rw (e, tcp_connect, f) refl
    | inr (fd, f) ↦ rw (e, tcp_connect, f) (connect_to_open io a fd fds (new fd f))
  ]
]

bind_loop_done :
    (left retry fd : ℕ) (bind : ℕ → BindAnswer)
    → (bind_loop left retry fd bind).0 ≡ true
    → (k : ℕ) × (k < retry + left) × (is_bound (bind k) ≡ true)
unfolding bind_loop
bind_loop_done zero retry fd bind e = absurd (cc e)
bind_loop_done (suc left) retry fd bind e = elim (Bool-cases (is_bound (bind retry))) [
  | inl b ↦ (retry, omega arith, b)
  | inr b ↦
      let (k, lt, f) = bind_loop_done left (suc retry) fd bind (ground (arith, e, b)) in
      (k, omega (arith, lt), f)
]

bind_loop_over :
    (left retry fd k : ℕ) (bind : ℕ → BindAnswer)
    → retry ≤ k
    → k < retry + left
    → is_bound (bind k) ≡ true
    → (bind_loop left retry fd bind).0 ≡ true
unfolding bind_loop
bind_loop_over zero retry fd k bind le lt e = absurd (omega arith)
bind_loop_over (suc left) retry fd k bind le lt e = elim (Bool-cases (is_bound (bind retry))) [
  | inl b ↦ rw b refl
  | inr b ↦
      let ne : retry ≢ k = λ same. cc (b, e, ap (λ x. is_bound (bind x)) same) in
      rw b (bind_loop_over left (suc retry) fd k bind (omega arith) (omega arith) e)
]

with_socket-tcp_ok :
    (fd fd' : ℕ) (io : CreateIo)
    → (with_socket fd io).0 ≡ tcp_ok fd'
    → (fd ≡ fd')
      × (io.fcntl_ok ≡ true)
      × ((bind_loop 10 0 fd io.bind).0 ≡ true)
      × (io.listen_ok ≡ true)
unfolding with_socket after_bind
with_socket-tcp_ok fd fd' io e = elim (Bool-cases io.fcntl_ok) [
  | inl f ↦ elim (Bool-cases (bind_loop 10 0 fd io.bind).0) [
    | inl b ↦ elim (Bool-cases io.listen_ok) [
      | inl l ↦ let e' : tcp_ok fd ≡ tcp_ok fd' = rw (f, b, l) at e in (cc e', f, b, l)
      | inr l ↦ let e' : tcp_error 9 ≡ tcp_ok fd' = rw (f, b, l) at e in absurd (cc e')
    ]
    | inr b ↦ let e' : tcp_error 8 ≡ tcp_ok fd' = rw (f, b) at e in absurd (cc e')
  ]
  | inr f ↦ let e' : tcp_error 7 ≡ tcp_ok fd' = rw f at e in absurd (cc e')
]

-- `tcp_create` gives a descriptor exactly where the kernel has one, takes it for non-blocking,
-- grants one of ten attempts to bind it (or has it bound already), and listens.
tcp_create-tcp_ok :
    (io : CreateIo) (fd : ℕ)
    → ((tcp_create io).0 ≡ tcp_ok fd) ↔ (
        (io.socket ≡ some fd)
        × (io.fcntl_ok ≡ true)
        × ((k : ℕ) × (k < 10) × (is_bound (io.bind k) ≡ true))
        × (io.listen_ok ≡ true))
unfolding tcp_create with_socket after_bind
tcp_create-tcp_ok io fd = (
  λ e. elim (Option-cases io.socket) [
    | inl f ↦ absurd (ground (arith, e, f))
    | inr (fd', f) ↦
        let (same, ok, b, l) = with_socket-tcp_ok fd' fd io (ground (arith, e, f)) in
        (ground (arith, f, same), ok, bind_loop_done 10 0 fd' io.bind b, l)
  ],
  λ r.
      let (f, ok, (k, lt, b), l) = r in
      let done = bind_loop_over 10 0 fd k io.bind (omega arith) (omega arith) b in
      rw f (rw (ok, done, l) refl),
)
