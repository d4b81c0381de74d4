-- ===== src/Pool/Turns.antt =====
-- tst/tst.cpp, the comments in `tst_main` and `tst_work`: what EPOLLONESHOT is used for. A descriptor
-- is in the hands of epoll, of the main thread or of one worker, and never of two.
use tst.Common.{ℕ, Bool, true, false, ◌≡◌}
use tst.Pool.State.{update}

-- `armed`: epoll may report an event; `ready`: an event is reported and the main thread has not
-- handled it; `held i`: worker `i` has the job; `silent`: nobody will do anything for it.
pub data Turn : Type 0 where
  silent armed ready : Turn
  held : (i : ℕ) → Turn

-- After a request to epoll, which may refuse it.
abbrev pub rest : Bool → Turn
rest true = armed
rest false = silent

-- One change of hands.
pub data Move (σ : ℕ → Turn) : (ℕ → Turn) → Type 0 where
  joined : (sd : ℕ) → σ sd ≡ silent → Move σ (update σ sd armed)
  refused : (sd : ℕ) → σ sd ≡ silent → Move σ (update σ sd silent)
  fired : (sd : ℕ) → σ sd ≡ armed → Move σ (update σ sd ready)
  taken : (sd i : ℕ) → σ sd ≡ ready → Move σ (update σ sd (held i))
  passed : (sd : ℕ) → σ sd ≡ ready → Move σ (update σ sd armed)
  dropped : (sd : ℕ) → σ sd ≡ ready → Move σ (update σ sd silent)
  rearmed : (sd i : ℕ) → σ sd ≡ held i → Move σ (update σ sd armed)
  closed : (sd i : ℕ) → σ sd ≡ held i → Move σ (update σ sd silent)

pub data Moves (σ : ℕ → Turn) : (ℕ → Turn) → Type 0 where
  stay : Moves σ σ
  onward : {τ υ : ℕ → Turn} → Moves σ τ → Move τ υ → Moves σ υ

pub Moves-append : {σ τ υ : ℕ → Turn} → Moves σ τ → Moves τ υ → Moves σ υ
Moves-append ms stay = ms
Moves-append ms (onward ns n) = onward (Moves-append ms ns) n

pub joined_rest : (σ : ℕ → Turn) (sd : ℕ) (b : Bool) → σ sd ≡ silent → Move σ (update σ sd (rest b))
joined_rest σ sd true e = joined sd e
joined_rest σ sd false e = refused sd e

pub ready_rest : (σ : ℕ → Turn) (sd : ℕ) (b : Bool) → σ sd ≡ ready → Move σ (update σ sd (rest b))
ready_rest σ sd true e = passed sd e
ready_rest σ sd false e = dropped sd e

pub held_rest : (σ : ℕ → Turn) (sd i : ℕ) (b : Bool) → σ sd ≡ held i → Move σ (update σ sd (rest b))
held_rest σ sd i true e = rearmed sd i e
held_rest σ sd i false e = closed sd i e
