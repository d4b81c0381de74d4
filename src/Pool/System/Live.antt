-- ===== src/Pool/System/Live.antt =====
-- How a pool, the kernel and the events to handle stand to whose turn it is, and what one change
-- of the pool does to that.
use tst.Common.{
  ◌⊎◌, arith, get_elem?, Option, List, ℕ, sym, ap, ◌∙◌, none, some, true, false, [], ◌∷◌, ◌≡◌, ◌≢◌,
}
use tst.Common.Dict.{lookup}
use tst.Pool.Types.{Socket, Events}
use tst.Pool.State.{Worker, update}
use tst.Pool.Connections.Laws.{Agrees}
use tst.Pool.Turns.{Turn, silent, armed, ready, held}
use tst.Pool.System.{Epoll, Apart}

abbrev pub Queued : (ℕ → Turn) → List (ℕ × Events) → Type 0
Queued σ [] = Unit
Queued σ ((sd, ev) ∷ es) = (σ sd ≡ ready) × Apart sd es × Queued σ es

-- The object of the worker's socket is allocated and registered, and it is the worker's turn.
pub record Owner {U : Type 0} (connect : List (ℕ × ℕ)) (heap : ℕ → Option (Socket U)) (σ : ℕ → Turn)
    (i a : ℕ) : Type 0 where
  pub socket : Socket U
  pub alive : heap a ≡ some socket
  pub known : lookup socket.sd connect ≡ some a
  pub turn : σ socket.sd ≡ held i

-- The descriptor is the main socket's, or registered.
abbrev pub IsKnown : Option ℕ → List (ℕ × ℕ) → ℕ → Type 0
IsKnown main connect sd = (main ≡ some sd) ⊎ ((a : ℕ) × (lookup sd connect ≡ some a))

module _ (E : Epoll) where
  pub record Live {U : Type 0} (main : Option ℕ) (connect : List (ℕ × ℕ))
      (heap : ℕ → Option (Socket U)) (next : ℕ) (workers : List Worker) (kernel : E.State)
      (pending : List (ℕ × Events)) (σ : ℕ → Turn) : Type 0 where
    pub sound : Agrees connect heap next
    pub watched : (sd : ℕ) → E.is_armed kernel sd ≡ true → σ sd ≡ armed
    pub queued : Queued σ pending
    pub owned :
        (i a : ℕ) (w : Worker)
        → get_elem? workers i ≡ some w
        → w.tst_socket ≡ some a
        → Owner connect heap σ i a
    pub gone :
        (sd : ℕ)
        → lookup sd connect ≡ none
        → E.is_armed kernel sd ≡ false
        → Apart sd pending
        → σ sd ≡ silent
    pub known : (sd : ℕ) → σ sd ≢ silent → IsKnown main connect sd

pub Queued-update :
    (σ : ℕ → Turn) (sd : ℕ) (t : Turn) (es : List (ℕ × Events))
    → Apart sd es
    → Queued σ es
    → Queued (update σ sd t) es
Queued-update σ sd t [] far q = tt
Queued-update σ sd t ((sd', ev) ∷ es) (ne, far) (e, apart, q) =
    (ground arith, apart, Queued-update σ sd t es far q)

pub Apart-Queued :
    (σ : ℕ → Turn) (sd : ℕ) (es : List (ℕ × Events)) → Queued σ es → σ sd ≢ ready → Apart sd es
Apart-Queued σ sd [] q ne = tt
Apart-Queued σ sd ((sd', ev) ∷ es) (e, apart, q) ne =
    (λ same. ne (ap σ (sym same) ∙ e), Apart-Queued σ sd es q ne)

-- No worker holds a socket with the descriptor.
abbrev pub Unheld : {U : Type 0} → (ℕ → Option (Socket U)) → List Worker → ℕ → Type 0
Unheld {U} heap workers sd =
    (i a : ℕ) (w : Worker) (k : Socket U)
    → get_elem? workers i ≡ some w
    → w.tst_socket ≡ some a
    → heap a ≡ some k
    → k.sd ≢ sd

-- Every worker of the one table that holds a socket holds it in the other.
abbrev pub Fewer : List Worker → List Worker → Type 0
Fewer workers workers' =
    (i a : ℕ) (w' : Worker)
    → get_elem? workers' i ≡ some w'
    → w'.tst_socket ≡ some a
    → (w : Worker) × (get_elem? workers i ≡ some w) × (w.tst_socket ≡ some a)

-- The events left to handle are those before, but for one descriptor.
pub record Without (sd : ℕ) (σ : ℕ → Turn) (pending pending' : List (ℕ × Events)) : Type 0 where
  pub kept : Queued σ pending'
  pub apart : Apart sd pending'
  pub back : (sd' : ℕ) → sd ≢ sd' → Apart sd' pending' → Apart sd' pending

pub Without-head :
    (sd : ℕ) (ev : Events) (σ : ℕ → Turn) (es : List (ℕ × Events))
    → Queued σ ((sd, ev) ∷ es)
    → Without sd σ ((sd, ev) ∷ es) es
Without-head sd ev σ es (e, apart, q) = record {
  kept = q;
  apart = apart;
  back = λ sd' ne far. (ne, far);
}

pub Without-same :
    (sd : ℕ) (σ : ℕ → Turn) (es : List (ℕ × Events))
    → Queued σ es
    → Apart sd es
    → Without sd σ es es
Without-same sd σ es q far = record { kept = q; apart = far; back = λ sd' ne far'. far' }
