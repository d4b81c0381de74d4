-- ===== src/Common/Lists.antt =====
-- Lists measured and indexed by native numbers, under the library's names, and predicates on all
-- members of a list. The buffers of the program are such lists.
use Prim.Native.Nat.{ℕ, zero, suc, ◌+◌, ◌-◌, ◌≤◌, min}
use mathlib.Core.Logic.{◌≢◌}
use mathlib.Core.Path.{◌≡◌, refl, ap, ◌∙◌}
use mathlib.Core.Option.{Option, none, some}
use mathlib.Core.List.{List, [], ◌∷◌, ◌++◌, append_assoc}
use native.Mathlib.Omega.{arith}

abbrev pub Bytes : Type 0
Bytes = List ℕ

module _ {ℓ} {A : Type ℓ} where
  abbrev pub length : List A → ℕ
  length [] = 0
  length (x ∷ xs) = suc (length xs)

  abbrev pub get_or : List A → ℕ → A → A
  get_or [] i d = d
  get_or (x ∷ xs) zero d = x
  get_or (x ∷ xs) (suc i) d = get_or xs i d

  abbrev pub get_elem? : List A → ℕ → Option A
  get_elem? [] i = none
  get_elem? (x ∷ xs) zero = some x
  get_elem? (x ∷ xs) (suc i) = get_elem? xs i

  -- A write out of bounds changes nothing.
  abbrev pub set : List A → ℕ → A → List A
  set [] i v = []
  set (x ∷ xs) zero v = v ∷ xs
  set (x ∷ xs) (suc i) v = x ∷ set xs i v

  abbrev pub take : ℕ → List A → List A
  take zero xs = []
  take (suc n) [] = []
  take (suc n) (x ∷ xs) = x ∷ take n xs

  abbrev pub drop : ℕ → List A → List A
  drop zero xs = xs
  drop (suc n) [] = []
  drop (suc n) (x ∷ xs) = drop n xs

  abbrev pub replicate : ℕ → A → List A
  replicate zero a = []
  replicate (suc n) a = a ∷ replicate n a

  abbrev pub All {κ} : (A → Type κ) → List A → Type κ
  All P [] = Unit {κ}
  All P (x ∷ xs) = P x × All P xs

  pub length-append : (xs ys : List A) → length (xs ++ ys) ≡ length xs + length ys
  length-append [] ys = omega arith
  length-append (x ∷ xs) ys = omega (arith, length-append xs ys)

  pub take-append-drop : (n : ℕ) (xs : List A) → take n xs ++ drop n xs ≡ xs
  take-append-drop zero xs = refl
  take-append-drop (suc n) [] = refl
  take-append-drop (suc n) (x ∷ xs) = ap (◌∷◌ x) (take-append-drop n xs)

  pub length-take : (n : ℕ) (xs : List A) → length (take n xs) ≡ min n (length xs)
  length-take zero xs = omega arith
  length-take (suc n) [] = omega arith
  length-take (suc n) (x ∷ xs) = omega (arith, length-take n xs)

  pub length-drop : (n : ℕ) (xs : List A) → length (drop n xs) ≡ length xs - n
  length-drop zero xs = omega arith
  length-drop (suc n) [] = omega arith
  length-drop (suc n) (x ∷ xs) = omega (arith, length-drop n xs)

  pub drop-replicate :
      (n m : ℕ) (a : A) (xs : List A)
      → n ≤ m
      → drop n (replicate m a ++ xs) ≡ replicate (m - n) a ++ xs
  drop-replicate zero m a xs h =
      let same : m ≡ m - 0 = omega arith in ap (λ k. replicate k a ++ xs) same
  drop-replicate (suc n) zero a xs h = absurd (omega arith)
  drop-replicate (suc n) (suc m) a xs h =
      let same : m - n ≡ suc m - suc n = omega arith in
      drop-replicate n m a xs (omega arith) ∙ ap (λ k. replicate k a ++ xs) same

  pub length-replicate : (n : ℕ) (a : A) → length (replicate n a) ≡ n
  length-replicate zero a = refl
  length-replicate (suc n) a = ap suc (length-replicate n a)

  pub get_elem?-set_self :
      (xs : List A) (i : ℕ) (x v : A) → get_elem? xs i ≡ some x → get_elem? (set xs i v) i ≡ some v
  get_elem?-set_self [] i x v e = cc
  get_elem?-set_self (y ∷ xs) zero x v e = refl
  get_elem?-set_self (y ∷ xs) (suc i) x v e = get_elem?-set_self xs i x v e

  pub get_elem?-set_ne :
      (xs : List A) (i j : ℕ) (v : A) → i ≢ j → get_elem? (set xs i v) j ≡ get_elem? xs j
  get_elem?-set_ne [] i j v h = refl
  get_elem?-set_ne (x ∷ xs) zero zero v h = absurd (h refl)
  get_elem?-set_ne (x ∷ xs) zero (suc j) v h = refl
  get_elem?-set_ne (x ∷ xs) (suc i) zero v h = refl
  get_elem?-set_ne (x ∷ xs) (suc i) (suc j) v h = get_elem?-set_ne xs i j v (λ e. h (ap suc e))

  pub take-length : (xs : List A) → take (length xs) xs ≡ xs
  take-length [] = refl
  take-length (x ∷ xs) = ap (◌∷◌ x) (take-length xs)

  pub take-all : (xs : List A) (n : ℕ) → length xs ≤ n → take n xs ≡ xs
  take-all [] zero h = refl
  take-all [] (suc n) h = refl
  take-all (x ∷ xs) zero h = absurd (omega arith)
  take-all (x ∷ xs) (suc n) h = ap (◌∷◌ x) (take-all xs n (omega arith))

  pub take-length_append : (xs ys : List A) → take (length xs) (xs ++ ys) ≡ xs
  take-length_append [] ys = refl
  take-length_append (x ∷ xs) ys = ap (◌∷◌ x) (take-length_append xs ys)

  pub drop-length_append : (xs ys : List A) → drop (length xs) (xs ++ ys) ≡ ys
  drop-length_append [] ys = refl
  drop-length_append (x ∷ xs) ys = drop-length_append xs ys

  pub take_append_add :
      (k n : ℕ) (xs ys : List A) → k ≡ length xs + n → take k (xs ++ ys) ≡ xs ++ take n ys
  take_append_add k n [] ys h = rw (let e : k ≡ n = omega arith in e)
  take_append_add zero n (x ∷ xs) ys h = absurd (omega arith)
  take_append_add (suc k) n (x ∷ xs) ys h = ap (◌∷◌ x) (take_append_add k n xs ys (omega arith))

  pub drop_append_add :
      (k n : ℕ) (xs ys : List A) → k ≡ length xs + n → drop k (xs ++ ys) ≡ drop n ys
  drop_append_add k n [] ys h = rw (let e : k ≡ n = omega arith in e)
  drop_append_add zero n (x ∷ xs) ys h = absurd (omega arith)
  drop_append_add (suc k) n (x ∷ xs) ys h = drop_append_add k n xs ys (omega arith)

  pub drop_append_le :
      (n : ℕ) (xs ys : List A) → n ≤ length xs → drop n (xs ++ ys) ≡ drop n xs ++ ys
  drop_append_le zero xs ys h = refl
  drop_append_le (suc n) [] ys h = absurd (omega arith)
  drop_append_le (suc n) (x ∷ xs) ys h = drop_append_le n xs ys (omega arith)

  pub drop-drop : (n m k : ℕ) (xs : List A) → k ≡ n + m → drop m (drop n xs) ≡ drop k xs
  drop-drop zero m k xs h = rw (let e : k ≡ m = omega arith in e)
  drop-drop (suc n) m zero xs h = absurd (omega arith)
  drop-drop (suc n) zero (suc k) [] h = refl
  drop-drop (suc n) (suc m) (suc k) [] h = refl
  drop-drop (suc n) m (suc k) (x ∷ xs) h = drop-drop n m k xs (omega arith)

  pub All-map {κ κ'} :
      {Q : A → Type κ} {R : A → Type κ'}
      → ((x : A) → Q x → R x)
      → (xs : List A) → All Q xs
      → All R xs
  All-map f [] _ = tt
  All-map f (x ∷ xs) (here, more) = (f x here, All-map f xs more)

  pub All-append {κ} :
      (Q : A → Type κ) (front back : List A) → All Q front → All Q back → All Q (front ++ back)
  All-append Q [] back _ there = there
  All-append Q (a ∷ front) back (here, more) there = (here, All-append Q front back more there)

-- `memcpy(buf + pos, bytes, length bytes)` into a buffer that has the room.
abbrev pub write_at : Bytes → ℕ → Bytes → Bytes
write_at buf pos bytes = take pos buf ++ (bytes ++ drop (pos + length bytes) buf)

-- Writing behind the first part of a region that has the room replaces the front of what was there.
pub write_at_region :
    (pos : ℕ) (pre got rest post bytes : Bytes)
    → pos ≡ length pre + length got
    → length bytes ≤ length rest
    → write_at (pre ++ (got ++ (rest ++ post))) pos bytes
      ≡ pre ++ ((got ++ bytes) ++ (drop (length bytes) rest ++ post))
write_at_region pos pre got rest post bytes h fits =
    rw (take_append_add pos (length got) pre (got ++ (rest ++ post)) h) (
      rw (take-length_append got (rest ++ post)) (
        rw
          (drop_append_add (pos + length bytes) (length got + length bytes) pre
            (got ++ (rest ++ post)) (omega arith))
          (rw (drop_append_add (length got + length bytes) (length bytes) got (rest ++ post) refl)
            (rw (drop_append_le (length bytes) rest post fits) (simp append_assoc)))))
