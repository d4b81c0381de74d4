-- ===== src/Pool/Shutdown/Laws.antt =====
-- The wait for the workers ends, and which workers it does not wait for.
use tst.Common.{
  length-replicate, map, replicate, All, Bool-cases, arith, get_elem?, length, Bool, ℕ, List, refl,
  ap, subst, ◌∙◌, none, some, true, false, [], ◌∷◌, inl, inr, zero, suc, ◌+◌, ◌≤◌, ◌<◌, ◌≡◌, ◌⊎◌,
  ◌==◌,
}
use tst.Pool.Types.{stat_code}
use tst.Pool.State.{Pool, Worker}
use tst.Pool.Shutdown.{
  signal_exit, stop_workers, Look, is_over, look_round, all_marked, wait_loop, cancel_rest,
}

abbrev pub is_marked : List Bool → ℕ → Bool
is_marked ms i = elim (get_elem? ms i) [ none ↦ true | some m ↦ m ]

look_round-length :
    (w : ℕ) (ms : List Bool) (look : ℕ → Look) (i : ℕ) → length (look_round w ms look i) ≡ length ms
unfolding look_round
look_round-length w [] look i = refl
look_round-length w (m ∷ ms) look i = ap suc (look_round-length w ms look (suc i))

-- A worker is marked behind a look where it was marked, or is over.
look_round-marked :
    (w : ℕ) (ms : List Bool) (look : ℕ → Look) (base i : ℕ)
    → (is_marked ms i ≡ true) ⊎ (is_over w (look (base + i)) ≡ true)
    → is_marked (look_round w ms look base) i ≡ true
unfolding look_round
look_round-marked w [] look base i e = refl
look_round-marked w (m ∷ ms) look base zero e = ground (arith, e)
look_round-marked w (m ∷ ms) look base (suc i) e =
    look_round-marked w ms look (suc base) i
      (subst (λ n. (is_marked ms i ≡ true) ⊎ (is_over w (look n) ≡ true)) (omega arith) e)

all_marked-is_marked :
    (ms : List Bool) → ((i : ℕ) → i < length ms → is_marked ms i ≡ true) → all_marked ms ≡ true
all_marked-is_marked [] h = refl
all_marked-is_marked (true ∷ ms) h = all_marked-is_marked ms (λ i lt. h (suc i) (omega arith))
all_marked-is_marked (false ∷ ms) h = h 0 (omega arith)

-- A worker that is marked, or is seen to be over in a round from `round` to `last`.
abbrev pub IsSeen : ℕ → ℕ → ℕ → List Bool → (ℕ → ℕ → Look) → ℕ → Type 0
IsSeen round last w ms looks i =
    (is_marked ms i ≡ true) ⊎ ((r : ℕ) × (round ≤ r) × (r ≤ last) × (is_over w (looks r i) ≡ true))

-- What is left to see behind a look.
look_round-IsSeen :
    (round last w i : ℕ) (ms : List Bool) (looks : ℕ → ℕ → Look)
    → IsSeen round last w ms looks i
    → IsSeen (suc round) last w (look_round w ms (looks round) 0) looks i
look_round-IsSeen round last w i ms looks (inl e) =
    inl (look_round-marked w ms (looks round) 0 i (inl e))
look_round-IsSeen round last w i ms looks (inr (r, le, below, e)) = elim (Bool-cases (round == r)) [
  | inl same ↦
      let f : is_over w (looks round (0 + i)) ≡ true =
        ground (arith, e, ap (λ x. is_over w (looks x i))) in
      inl (look_round-marked w ms (looks round) 0 i (inr f))
  | inr other ↦ inr (r, ground arith, below, e)
]

unseen-end :
    (last w i : ℕ) (ms : List Bool) (looks : ℕ → ℕ → Look)
    → IsSeen (suc last) last w ms looks i
    → is_marked ms i ≡ true
unseen-end last w i ms looks (inl e) = e
unseen-end last w i ms looks (inr (r, le, below, e)) = absurd (omega arith)

-- The loop ends by round `last`, where each worker is marked, or is seen to be over in some round
-- up to it.
wait_loop-ends :
    (left round last w : ℕ) (ms : List Bool) (looks : ℕ → ℕ → Look)
    → last ≡ round + left
    → ((i : ℕ) → i < length ms → IsSeen round last w ms looks i)
    → (n : ℕ) × (wait_loop (suc left) round w ms looks ≡ some n) × (n ≤ last)
unfolding wait_loop
wait_loop-ends zero round last w ms looks e seen =
    let ms' = look_round w ms (looks round) 0 in
    let all : all_marked ms' ≡ true = all_marked-is_marked ms' (λ i lt.
      unseen-end last w i ms' looks (
        subst (λ x. IsSeen (suc x) last w ms' looks i) (omega (arith, e))
          (look_round-IsSeen round last w i ms looks
            (seen i (omega (arith, lt, look_round-length w ms (looks round) 0)))))) in
    (round, rw all refl, omega (arith, e))
wait_loop-ends (suc left) round last w ms looks e seen =
    let ms' = look_round w ms (looks round) 0 in
    elim (Bool-cases (all_marked ms')) [
      | inl f ↦ (round, rw f refl, omega (arith, e))
      | inr f ↦
          let (n, g, le) =
            wait_loop-ends left (suc round) last w ms' looks (omega (arith, e)) (λ i lt.
              look_round-IsSeen round last w i ms looks
                (seen i (omega (arith, lt, look_round-length w ms (looks round) 0)))) in
          (n, rw f g, le)
    ]

-- Where each of `n` workers is seen, in some round up to `last`, to have been told to exit, to
-- have exited, or to be longer at its job than the time that `destroy` was given, the wait ends by
-- then.
pub wait_loop_end :
    (n last endwaittime : ℕ) (looks : ℕ → ℕ → Look)
    → ((i : ℕ) → i < n → (r : ℕ) × (r ≤ last) × (is_over endwaittime (looks r i) ≡ true))
    → (k : ℕ) × (wait_loop (suc last) 0 endwaittime (replicate n false) looks ≡ some k) × (k ≤ last)
wait_loop_end n last endwaittime looks over =
    wait_loop-ends last 0 last endwaittime (replicate n false) looks (omega arith) (λ i lt.
      let (r, le, e) = over i (omega (arith, lt, length-replicate n false)) in
      inr (r, omega arith, le, e))

-- The numbers of `n` workers from `i` on.
unfoldable pub numbers : (n i : ℕ) → List ℕ
numbers zero i = []
numbers (suc n) i = i ∷ numbers n (suc i)

abbrev pub IsWaiting : Worker → Type 0
IsWaiting w = stat_code w.thread_stat < 1

cancel-signalled :
    (ws : List Worker) (i : ℕ)
    → All IsWaiting ws
    → cancel_rest (map (λ (w : Worker). w.thread_stat) (map signal_exit ws)) i
      ≡ numbers (length ws) i
unfolding cancel_rest numbers
cancel-signalled [] i waiting = refl
cancel-signalled (w ∷ ws) i (waits, waiting) = ground (arith, cancel-signalled ws (suc i) waiting)

signalled-over :
    (ws : List Worker) (i t : ℕ) (l : Look)
    → All IsWaiting ws
    → i < length ws
    → ((w : Worker) → get_elem? (map signal_exit ws) i ≡ some w → l.stat ≡ w.thread_stat)
    → is_over t l ≡ true
signalled-over [] i t l waiting lt same = absurd (omega arith)
signalled-over (w ∷ ws) zero t l (waits, waiting) lt same =
    ground (arith, same (signal_exit w) refl, waits)
signalled-over (w ∷ ws) (suc i) t l (waits, waiting) lt same =
    signalled-over ws i t l waiting (omega arith) same

-- Where all workers wait when the loop of the main thread ends, and the first look still finds
-- them in the states that they were given, the wait is over at once, and every one of them is
-- cancelled.
stop_workers-cancels :
    {U G : Type 0} (p : Pool U G) (endwaittime : ℕ) (looks : ℕ → ℕ → Look)
    → All IsWaiting p.workers
    → ((i : ℕ) (w : Worker)
        → get_elem? (stop_workers p).workers i ≡ some w
        → (looks 0 i).stat ≡ w.thread_stat)
    → let n = length p.workers in
      (wait_loop 1 0 endwaittime (replicate n false) looks ≡ some 0)
      × (cancel_rest (map (λ (w : Worker). w.thread_stat) (stop_workers p).workers) 0 ≡ numbers n 0)
unfolding stop_workers
stop_workers-cancels p t looks waiting same =
    let (k, e, le) =
      wait_loop_end (length p.workers) 0 t looks
        (λ i lt. (0, omega arith, signalled-over p.workers i t (looks 0 i) waiting lt (same i))) in
    let f : k ≡ 0 = omega (arith, le) in (e ∙ ap some f, cancel-signalled p.workers 0 waiting)
