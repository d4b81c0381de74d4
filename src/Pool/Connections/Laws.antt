-- ===== src/Pool/Connections/Laws.antt =====
-- What `addsocket` and `closesocket` do to the map, the heap and the descriptors.
use tst.Common.{
  List, Option, Option-cases, Bool-cases, arith, refl, ap, ◌∙◌, none, some, inl, inr, ◌≤◌, ◌<◌, ◌≡◌,
  ◌≢◌, ◌==◌, if◌then◌else◌, ℕ,
}
use tst.Common.Dict.{lookup, lookup-insert, lookup-erase}
use tst.Pool.Types.{Socket}
use tst.Pool.State.{Pool, Hooks}
use tst.Pool.Connections.{update, addsocket, closesocket, delete, ensure_data}

-- The map and the heap agree: a registered descriptor leads to an allocated object that carries
-- the descriptor, no two descriptors lead to one object, and the addresses from `next` on are unused.
pub record Agrees {U : Type 0} (connect : List (ℕ × ℕ)) (heap : ℕ → Option (Socket U)) (next : ℕ)
    : Type 0 where
  pub owns :
      (sd a : ℕ) → lookup sd connect ≡ some a → (k : Socket U) × (heap a ≡ some k) × (k.sd ≡ sd)
  pub apart : (sd sd' a : ℕ) → lookup sd connect ≡ some a → lookup sd' connect ≡ some a → sd ≡ sd'
  pub fresh : (a : ℕ) → next ≤ a → heap a ≡ none

abbrev pub IsSound : {U G : Type 0} → Pool U G → Type 0
IsSound p = Agrees p.connect p.heap p.next_address

-- An object may change, as long as it keeps its descriptor.
pub Agrees-update :
    {U : Type 0} (connect : List (ℕ × ℕ)) (heap : ℕ → Option (Socket U)) (next a : ℕ)
    (k k' : Socket U)
    → Agrees connect heap next
    → heap a ≡ some k
    → k'.sd ≡ k.sd
    → Agrees connect (update heap a (some k')) next
Agrees-update connect heap next a k k' v held same = record {
  owns = λ sd b e.
      let (j, at, named) = v.owns sd b e in
      elim (Bool-cases (a == b)) [
        | inl hit ↦ (k', ground arith, ground (arith, ap heap))
        | inr miss ↦ (j, ground arith, named)
      ];
  apart = v.apart;
  fresh = λ b le. ground (arith, v.fresh b);
}

module _ {U G : Type 0} (h : Hooks U G) (p : Pool U G) where
  -- After `closesocket` the descriptor is registered no more, every other one as before.
  pub lookup-closesocket :
      (sd sd' : ℕ)
      → lookup sd' (closesocket h p sd).connect ≡ (if sd == sd' then none else lookup sd' p.connect)
  unfolding closesocket
  lookup-closesocket sd sd' = lookup-erase sd sd' p.connect

  lookup-closesocket-some :
      (sd sd' a : ℕ)
      → lookup sd' (closesocket h p sd).connect ≡ some a
      → (sd ≢ sd') × (lookup sd' p.connect ≡ some a)
  lookup-closesocket-some sd sd' a e = ground (arith, lookup-closesocket sd sd')

  -- The object of a connection is untouched when another one is closed.
  pub heap-closesocket :
      (sd sd' a : ℕ)
      → IsSound p
      → sd ≢ sd'
      → lookup sd' p.connect ≡ some a
      → (closesocket h p sd).heap a ≡ p.heap a
  unfolding closesocket
  heap-closesocket sd sd' a v ne e = elim (Option-cases (lookup sd p.connect)) [
    | inl gone ↦ rw (gone, delete) refl
    | inr (b, held) ↦ rw (held, delete) (ground (arith, apart b held))
  ]
    where
      apart : (b : ℕ) → lookup sd p.connect ≡ some b → b ≢ a
      apart b held same = ne (v.apart sd sd' a (held ∙ ap some same) e)

  pub heap-closesocket-none : (sd a : ℕ) → p.heap a ≡ none → (closesocket h p sd).heap a ≡ none
  unfolding closesocket
  heap-closesocket-none sd a e = elim (Option-cases (lookup sd p.connect)) [
    | inl gone ↦ rw (gone, delete) e
    | inr (b, held) ↦ rw (held, delete) (ground arith)
  ]

  -- Closing one connection keeps the map and the heap in agreement.
  pub closesocket-IsSound : (sd : ℕ) → IsSound p → IsSound (closesocket h p sd)
  closesocket-IsSound sd v = record {
    owns = λ sd' a e.
        let (ne, e') = lookup-closesocket-some sd sd' a e in
        let (k, held, named) = v.owns sd' a e' in
        (k, heap-closesocket sd sd' a v ne e' ∙ held, named);
    apart = λ sd1 sd2 a e1 e2.
        v.apart sd1 sd2 a (lookup-closesocket-some sd sd1 a e1).1
          (lookup-closesocket-some sd sd2 a e2).1;
    fresh = λ a le. heap-closesocket-none sd a (v.fresh a (unfold closesocket in le));
  }

module _ {U G : Type 0} (p : Pool U G) where
  pub lookup-addsocket :
      (a : ℕ) (k : Socket U) (sd : ℕ)
      → lookup sd (addsocket p a k).connect ≡ (if k.sd == sd then some a else lookup sd p.connect)
  unfolding addsocket
  lookup-addsocket a k sd = lookup-insert k.sd sd a p.connect

  -- The address of a registered connection is in use.
  taken : (a sd b : ℕ) → IsSound p → p.heap a ≡ none → lookup sd p.connect ≡ some b → b ≢ a
  taken a sd b v unused e same =
      let (k, held, named) = v.owns sd b e in cc (held, unused, ap p.heap same)

  addsocket_owns :
      (a : ℕ) (k : Socket U) (sd b : ℕ)
      → IsSound p
      → p.heap a ≡ none
      → lookup sd (addsocket p a k).connect ≡ some b
      → (j : Socket U) × ((addsocket p a k).heap b ≡ some j) × (j.sd ≡ sd)
  unfolding addsocket
  addsocket_owns a k sd b v unused e = elim (Bool-cases (k.sd == sd)) [
    | inl same ↦ (
      record k {
        recv = ensure_data k.recv p.recv_buf_size;
        send = ensure_data k.send p.send_buf_size;
      },
      ground (arith, lookup-addsocket a k sd),
      ground arith,
    )
    | inr other ↦
        let e' : lookup sd p.connect ≡ some b = ground (arith, lookup-addsocket a k sd) in
        let (j, held, named) = v.owns sd b e' in
        (j, ground (arith, taken a sd b v unused e'), named)
  ]

  addsocket_apart :
      (a : ℕ) (k : Socket U) (sd1 sd2 b : ℕ)
      → IsSound p
      → p.heap a ≡ none
      → lookup sd1 (addsocket p a k).connect ≡ some b
      → lookup sd2 (addsocket p a k).connect ≡ some b
      → sd1 ≡ sd2
  addsocket_apart a k sd1 sd2 b v unused e1 e2 = ground (
    arith,
    lookup-addsocket a k sd1,
    lookup-addsocket a k sd2,
    taken a sd1 b v unused,
    taken a sd2 b v unused,
    v.apart sd1 sd2 b,
  )

  -- Adding a socket at an unused address, below the next new one, keeps the map and the heap in
  -- agreement, also where its descriptor is registered already.
  pub addsocket-IsSound :
      (a : ℕ) (k : Socket U)
      → IsSound p
      → p.heap a ≡ none
      → a < p.next_address
      → IsSound (addsocket p a k)
  unfolding addsocket
  addsocket-IsSound a k v unused below = record {
    owns = λ sd b e. addsocket_owns a k sd b v unused e;
    apart = λ sd1 sd2 b e1 e2. addsocket_apart a k sd1 sd2 b v unused e1 e2;
    fresh = λ b le. ground (arith, v.fresh b);
  }
