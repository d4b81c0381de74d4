-- ===== src/Pool/Lifecycle/Release.antt =====
-- What a pool has given back when it is destroyed.
use tst.Common.{
  not, Bool, arith, Bool-cases, ltb, All, Option, List, ℕ, refl, sym, ap, subst, ◌∙◌, none, some,
  true, false, [], ◌∷◌, inl, inr, ◌≡◌, ◌≢◌, ◌==◌, if◌then◌else◌, ◌||◌,
}
use tst.Common.Dict.{lookup}
use tst.Pool.Types.{Socket, sock_listen}
use tst.Pool.State.{Pool, Call, epoll_del, close_fd, update}
use tst.Pool.Connections.Laws.{IsSound}
use tst.Pool.Lifecycle.{close_main, close_entries, release, destroy}

-- No key stands twice.
abbrev pub IsMap : List (ℕ × ℕ) → Type 0
IsMap [] = Unit
IsMap ((key, value) ∷ rest) = (lookup key rest ≡ none) × IsMap rest

-- Each entry leads to an object of its own, which carries the entry's descriptor.
abbrev IsOwned : {U : Type 0} → (ℕ → Option (Socket U)) → List (ℕ × ℕ) → Type 0
IsOwned heap [] = Unit
IsOwned {U} heap ((sd, a) ∷ es) =
    ((k : Socket U) × (heap a ≡ some k) × (k.sd ≡ sd))
    × All (λ (e : ℕ × ℕ). e.1 ≢ a) es
    × IsOwned heap es

-- The calls for the entries, the newest first, on top of those before.
unfoldable pub close_calls : List (ℕ × ℕ) → List Call → List Call
close_calls [] calls = calls
close_calls ((sd, a) ∷ es) calls =
    close_calls es (if ltb 0 sd then close_fd sd ∷ epoll_del sd ∷ calls else calls)

lookup-tail :
    (key value sd a : ℕ) (es : List (ℕ × ℕ))
    → lookup key es ≡ none
    → lookup sd es ≡ some a
    → lookup sd ((key, value) ∷ es) ≡ some a
unfolding lookup
lookup-tail key value sd a es free e = elim (Bool-cases (key == sd)) [
  | inl same ↦ let f : key ≡ sd = ground arith in cc (free, e, ap (λ x. lookup x es) f)
  | inr other ↦ rw other e
]

-- The address of an entry is no other entry's.
apart-All :
    (sd a : ℕ) (es : List (ℕ × ℕ))
    → IsMap es
    → ((sd' : ℕ) → lookup sd' es ≡ some a → sd ≡ sd')
    → lookup sd es ≡ none
    → All (λ (e : ℕ × ℕ). e.1 ≢ a) es
unfolding lookup
apart-All sd a [] m apart free = tt
apart-All sd a ((key, value) ∷ es) (new, m) apart free = (
  λ same.
      let e : lookup key ((key, value) ∷ es) ≡ some a = ground (arith, same) in
      let f : sd ≡ key = apart key e in ground (arith, free, f),
  apart-All sd a es m (λ sd' e. apart sd' (lookup-tail key value sd' a es new e))
      (ground (arith, free)),
)

IsOwned-Agrees :
    {U : Type 0} (heap : ℕ → Option (Socket U)) (es : List (ℕ × ℕ))
    → IsMap es
    → ((sd a : ℕ) → lookup sd es ≡ some a → (k : Socket U) × (heap a ≡ some k) × (k.sd ≡ sd))
    → ((sd sd' a : ℕ) → lookup sd es ≡ some a → lookup sd' es ≡ some a → sd ≡ sd')
    → IsOwned heap es
unfolding lookup
IsOwned-Agrees heap [] m owns apart = tt
IsOwned-Agrees heap ((sd, a) ∷ es) (new, m) owns apart =
    let up = λ (x b : ℕ) (e : lookup x es ≡ some b). lookup-tail sd a x b es new e in
    let here : lookup sd ((sd, a) ∷ es) ≡ some a = ground arith in
    (
      owns sd a here,
      apart-All sd a es m (λ sd' e. apart sd sd' a here (up sd' a e)) new,
      IsOwned-Agrees heap es m (λ x b e. owns x b (up x b e))
          (λ x y b e f. apart x y b (up x b e) (up y b f)),
    )

IsOwned-update :
    {U : Type 0} (heap : ℕ → Option (Socket U)) (a : ℕ) (es : List (ℕ × ℕ))
    → All (λ (e : ℕ × ℕ). e.1 ≢ a) es
    → IsOwned heap es
    → IsOwned (update heap a none) es
IsOwned-update heap a [] far owned = tt
IsOwned-update heap a ((sd, b) ∷ es) (ne, far) ((k, alive, named), away, owned) =
    ((k, ground (arith, alive, ne), named), away, IsOwned-update heap a es far owned)

deleted-lookup :
    {U : Type 0} (heap : ℕ → Option (Socket U)) (es : List (ℕ × ℕ)) (sd a : ℕ)
    → All (λ (e : ℕ × ℕ). heap e.1 ≡ none) es
    → lookup sd es ≡ some a
    → heap a ≡ none
unfolding lookup
deleted-lookup heap [] sd a gone e = absurd (cc e)
deleted-lookup heap ((key, b) ∷ es) sd a (gone, more) e = elim (Bool-cases (key == sd)) [
  | inl same ↦ let f : a ≡ b = ground (arith, e, same) in ap heap f ∙ gone
  | inr other ↦ deleted-lookup heap es sd a more (ground (arith, e, other))
]

module _ {U G : Type 0} where
  -- What closing the entries gives back.
  record Closed (p r : Pool U G) (es : List (ℕ × ℕ)) : Type 0 where
    calls : r.calls ≡ close_calls es p.calls
    deleted : All (λ (e : ℕ × ℕ). r.heap e.1 ≡ none) es
    others : (b : ℕ) → All (λ (e : ℕ × ℕ). e.1 ≢ b) es → r.heap b ≡ p.heap b
    same : (r.connect ≡ p.connect) × (r.workers ≡ p.workers) × (r.sockmain ≡ p.sockmain)

  close_entries-Closed :
      (p : Pool U G) (es : List (ℕ × ℕ))
      → IsOwned p.heap es
      → (r : Pool U G) × (close_entries p es ≡ some r) × Closed p r es
  unfolding close_entries close_calls
  close_entries-Closed p [] owned = (
    p,
    refl,
    record { calls = refl; deleted = tt; others = λ b far. refl; same = (refl, refl, refl) },
  )
  close_entries-Closed p ((sd, a) ∷ es) ((k, alive, named), far, owned) =
      let q = record p {
        heap = update p.heap a none;
        calls = if ltb 0 k.sd then close_fd k.sd ∷ epoll_del k.sd ∷ p.calls else p.calls;
      } in
      let (r, e, c) = close_entries-Closed q es (IsOwned-update p.heap a es far owned) in
      (
        r,
        rw (alive, close_entries) e,
        record {
          calls =
              c.calls
              ∙ ap
                  (λ x.
                    close_calls es
                      (if ltb 0 x then close_fd x ∷ epoll_del x ∷ p.calls else p.calls))
                  named;
          deleted = (c.others a far ∙ ground arith, c.deleted);
          others = λ b away. c.others b away.1 ∙ ground (arith, away.0);
          same = c.same;
        },
      )

  -- The call for the main socket, where it listens.
  abbrev pub main_calls : Pool U G → List Call
  main_calls p = elim p.socktype [
    | sock_listen ↦ elim p.sockmain [ none ↦ p.calls | some sd ↦ close_fd sd ∷ p.calls ]
    | _ ↦ p.calls
  ]

  main_calls-close_main :
      (p : Pool U G)
      → let q = close_main p in
        (q.calls ≡ main_calls p)
        × (q.heap ≡ p.heap)
        × (q.connect ≡ p.connect)
        × (q.workers ≡ p.workers)
  main_calls-close_main p = ground arith

  -- What a destroyed pool `r` has given back of the pool `q`.
  pub record Released (q r : Pool U G) : Type 0 where
    pub emptied : r.connect ≡ []
    pub freed : r.workers ≡ []
    pub calls : r.calls ≡ close_calls q.connect (main_calls q)
    pub deleted : (sd a : ℕ) → lookup sd q.connect ≡ some a → r.heap a ≡ none
    pub others : (b : ℕ) → All (λ (e : ℕ × ℕ). e.1 ≢ b) q.connect → r.heap b ≡ q.heap b

  release-Released :
      (q : Pool U G)
      → IsSound q
      → IsMap q.connect
      → (r : Pool U G) × (release q ≡ some r) × Released q r
  unfolding release
  release-Released q v m =
      let q0 = record q { main_run = false; workers = []; main_thread = false } in
      let q1 = close_main q0 in
      let (calls, heap, connect, workers) = main_calls-close_main q0 in
      let owned = IsOwned-Agrees q.heap q.connect m v.owns v.apart in
      let (r, e, d) = close_entries-Closed q1 q1.connect (
        subst (λ x. IsOwned x q1.connect) (sym heap)
          (subst (λ x. IsOwned q.heap x) (sym connect) owned)) in
      (
        record r { connect = [] },
        rw (e, release) refl,
        record {
          emptied = refl;
          freed = d.same.1 ∙ workers;
          calls =
              d.calls ∙ ap (λ x. close_calls x q1.calls) connect ∙ ap (close_calls q.connect) calls;
          deleted = λ sd a f.
              deleted-lookup r.heap q.connect sd a
                (subst (λ x. All (λ (e : ℕ × ℕ). r.heap e.1 ≡ none) x) connect d.deleted) f;
          others = λ b far.
              d.others b (subst (λ x. All (λ (e : ℕ × ℕ). e.1 ≢ b) x) (sym connect) far)
              ∙ ap (λ f. f b) heap;
        },
      )

  abbrev flagged : Option (Pool U G) → Option (Pool U G × Bool)
  flagged o = elim o [ none ↦ none | some q ↦ some (q, true) ]

  destroy_runs :
      (p : Pool U G) (joined : Pool U G → Pool U G) (r : Pool U G)
      → p.main_thread ≡ true
      → p.main_run ≡ true
      → release (joined (record p { main_run = false })) ≡ some r
      → destroy p joined ≡ some (r, true)
  unfolding destroy
  destroy_runs p joined r started runs e =
      let o = release (joined (record p { main_run = false })) in
      ap (λ b. if not b || not p.main_run then some (p, false) else flagged o) started
      ∙ ap (λ b. if not true || not b then some (p, false) else flagged o) runs
      ∙ ap flagged e

  -- The pool that the joined threads leave behind, where the map and the heap agree in it and no
  -- descriptor stands twice in the map, is destroyed with no fault: the map is empty, the
  -- listening socket and every connection are removed and closed once, in the order of the map,
  -- their objects are deleted, and every other object stays.
  pub destroy-release :
      (p : Pool U G) (joined : Pool U G → Pool U G)
      → p.main_thread ≡ true
      → p.main_run ≡ true
      → let q = joined (record p { main_run = false }) in
        IsSound q
        → IsMap q.connect
        → (r : Pool U G) × (destroy p joined ≡ some (r, true)) × Released q r
  unfolding destroy
  destroy-release p joined started runs v m =
      let q = joined (record p { main_run = false }) in
      let (r, e, d) = release-Released q v m in (r, destroy_runs p joined r started runs e, d)
