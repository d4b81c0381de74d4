-- ===== src/Pool/Setup.antt =====
-- tst/tst.cpp: `tcp_create` and `tcp_connect`. The kernel's answers are arguments; a call that the
-- code makes for a descriptor is an entry of the result's list, in the order of the calls.
pub mod Laws
use tst.Common.{
  ltb, List, Bool, Option, ℕ, refl, sym, ap, subst, ◌∙◌, none, some, true, false, [], ◌∷◌, inl, inr,
  zero, suc, ◌+◌, ◌-◌, ◌*◌, ◌/◌, ◌%◌, ◌^◌, ◌≤◌, ◌<◌, ◌≡◌, ◌≢◌, ◌↔◌, ◌⊎◌, ◌++◌, ◌==◌, if◌then◌else◌,
  ◌&&◌, ◌||◌,
}

-- `set_up` is a `setsockopt`; its answer is not looked at.
pub data SetupCall : Type 0 where
  opened : (fd : ℕ) → SetupCall
  set_up : (fd : ℕ) → SetupCall
  set_nonblock : (fd : ℕ) → SetupCall
  tried_bind : (fd : ℕ) → SetupCall
  listened : (fd : ℕ) → SetupCall
  connected : (fd address : ℕ) → SetupCall
  slept : SetupCall
  closed : (fd : ℕ) → SetupCall

-- The descriptor, or the number whose negative the code returns.
pub data TcpResult : Type 0 where
  tcp_ok : (fd : ℕ) → TcpResult
  tcp_error : (code : ℕ) → TcpResult

pub data BindAnswer : Type 0 where
  bind_ok bind_einval bind_eaddrinuse bind_failed : BindAnswer

-- `bind` is the answer to each attempt, counted from 0.
pub record CreateIo : Type 0 where
  pub socket : Option ℕ
  pub fcntl_ok : Bool
  pub bind : ℕ → BindAnswer
  pub listen_ok : Bool

abbrev max_retry : ℕ
max_retry = 10

-- EINVAL is taken for a descriptor that is bound already.
abbrev pub is_bound : BindAnswer → Bool
is_bound bind_ok = true
is_bound bind_einval = true
is_bound _ = false

-- What the loop does between two attempts.
abbrev pub between : ℕ → BindAnswer → List SetupCall
between fd bind_eaddrinuse = set_up fd ∷ slept ∷ []
between fd _ = slept ∷ []

-- The loop over `bind`, with `left` attempts left behind `retry` of them: whether it is left by a
-- `break`, and its calls.
unfoldable pub bind_loop : (left retry fd : ℕ) → (ℕ → BindAnswer) → Bool × List SetupCall
bind_loop zero retry fd bind = (false, [])
bind_loop (suc left) retry fd bind =
    let (done, more) = bind_loop left (suc retry) fd bind in
    if is_bound (bind retry)
    then (true, tried_bind fd ∷ [])
    else (done, tried_bind fd ∷ between fd (bind retry) ++ more)

after_bind : ℕ → CreateIo → List SetupCall → TcpResult × List SetupCall
after_bind fd io before =
    if io.listen_ok
    then (tcp_ok fd, before ++ (listened fd ∷ set_up fd ∷ set_up fd ∷ []))
    else (tcp_error 9, before ++ (listened fd ∷ closed fd ∷ []))

with_socket : ℕ → CreateIo → TcpResult × List SetupCall
unfolding bind_loop after_bind
with_socket fd io =
    if io.fcntl_ok
    then (let (done, calls) = bind_loop max_retry 0 fd io.bind in
        let before = opened fd ∷ set_nonblock fd ∷ set_up fd ∷ calls in
        if done then after_bind fd io before else (tcp_error 8, before ++ (closed fd ∷ [])))
    else (tcp_error 7, opened fd ∷ set_nonblock fd ∷ closed fd ∷ [])

unfoldable pub tcp_create : CreateIo → TcpResult × List SetupCall
unfolding with_socket
tcp_create io = elim io.socket [ none ↦ (tcp_error 1, []) | some fd ↦ with_socket fd io ]

-- `host` is the address that `gethostbyname` gives, `number` what `atoi` makes of the name, 0 for
-- a result that is not positive, and `address` what `inet_addr` makes of it.
pub record ConnectIo : Type 0 where
  pub host : Option ℕ
  pub number : ℕ
  pub address : ℕ
  pub socket : Option ℕ
  pub connect_ok : Bool
  pub fcntl_ok : Bool

abbrev pub resolve : ConnectIo → Option ℕ
resolve io = elim io.host [
  | none ↦ if ltb 0 io.number then some io.address else none
  | some a ↦ some a
]

connect_to : ConnectIo → ℕ → ℕ → TcpResult × List SetupCall
connect_to io a fd =
    if io.connect_ok
    then (if io.fcntl_ok
        then (tcp_ok fd, opened fd ∷ connected fd a ∷ set_nonblock fd ∷ set_up fd ∷ set_up fd ∷ [])
        else (tcp_error 7, opened fd ∷ connected fd a ∷ set_nonblock fd ∷ closed fd ∷ []))
    else (tcp_error 3, opened fd ∷ connected fd a ∷ closed fd ∷ [])

unfoldable pub tcp_connect : ConnectIo → TcpResult × List SetupCall
unfolding connect_to
tcp_connect io = elim (resolve io) [
  | none ↦ (tcp_error 1, [])
  | some a ↦ elim io.socket [ none ↦ (tcp_error 2, []) | some fd ↦ connect_to io a fd ]
]
