-- ===== src/Http/Query/Parsing.antt =====
-- `Parse` against the text form of a list of pairs, and its fuel.
use tst.Common.{
  arith, refl, none, some, [], ◌∷◌, inl, inr, zero, suc, ◌+◌, ◌≤◌, ◌≡◌, ◌≢◌, ◌++◌, ℕ, Bytes, List,
  length, length-append, All, Option-cases,
}
use tst.Http.Query.{CheckCrlf, split_at, stored, put, next_name, next_value, parse_loop, parse}

-- The byte does not occur.
abbrev pub Lacks : ℕ → Bytes → Type 0
Lacks mark = All (λ c. c ≢ mark)

-- The pairs as text: `name=value`, joined by `&`.
unfoldable pub render : List (Bytes × Bytes) → Bytes
render [] = []
render ((k, v) ∷ []) = k ++ b'=' ∷ v
render ((k, v) ∷ e ∷ more) = k ++ b'=' ∷ (v ++ b'&' ∷ render (e ∷ more))

abbrev pub IsPair : Bytes → Bytes → Type 0
IsPair k v = (k ≢ []) × Lacks b'=' k × Lacks b'&' v

-- Every name is there and every value but the last may be empty.
abbrev pub IsRenderable : List (Bytes × Bytes) → Type 0
IsRenderable [] = Unit {0}
IsRenderable ((k, v) ∷ []) = IsPair k v × (v ≢ [])
IsRenderable ((k, v) ∷ e ∷ more) = IsPair k v × IsRenderable (e ∷ more)

-- The map with all pairs put in, in order.
unfoldable pub put_all :
    CheckCrlf → List (Bytes × Bytes) → List (Bytes × Bytes) → List (Bytes × Bytes)
put_all m [] acc = acc
put_all m ((k, v) ∷ more) acc = put_all m more (put (stored m k) (stored m v) acc)

pub split_at-append :
    (mark : ℕ) (front back : Bytes)
    → Lacks mark front
    → split_at mark (front ++ mark ∷ back) ≡ some (front, back)
unfolding split_at
split_at-append mark [] back h = ground arith
split_at-append mark (c ∷ front) back h = ground (arith, split_at-append mark front back h.1)

pub split_at-none : (mark : ℕ) (text : Bytes) → Lacks mark text → split_at mark text ≡ none
unfolding split_at
split_at-none mark [] h = refl
split_at-none mark (c ∷ text) h = ground (arith, split_at-none mark text h.1)

pub split_at-length :
    (mark : ℕ) (text front back : Bytes)
    → split_at mark text ≡ some (front, back)
    → length front + length back + 1 ≡ length text
unfolding split_at
split_at-length mark [] front back e = cc
split_at-length mark (c ∷ text) front back e = elim (Option-cases (split_at mark text)) [
  | inl gone ↦ ground arith
  | inr ((a, b), found) ↦ ground (arith, split_at-length mark text a b found)
]

next_name_lem :
    (name after : Bytes)
    → name ≢ []
    → Lacks b'=' name
    → next_name (name ++ b'=' ∷ after) ≡ some (name, after)
unfolding next_name
next_name_lem [] after ne h = absurd (ne refl)
next_name_lem (c ∷ name) after ne h = rw (split_at-append b'=' (c ∷ name) after h, next_name)

next_value_last : (v : Bytes) → v ≢ [] → Lacks b'&' v → next_value v ≡ some (v, none)
unfolding next_value
next_value_last [] ne h = absurd (ne refl)
next_value_last (c ∷ v) ne h = rw (split_at-none b'&' (c ∷ v) h, next_value)

next_value_more :
    (v rest : Bytes) → Lacks b'&' v → next_value (v ++ b'&' ∷ rest) ≡ some (v, some rest)
unfolding next_value split_at
next_value_more [] rest h = refl
next_value_more (c ∷ v) rest h = rw (split_at-append b'&' (c ∷ v) rest h, next_value)

parse_loop-render :
    (fuel : ℕ) (m : CheckCrlf) (kvs acc : List (Bytes × Bytes))
    → IsRenderable kvs
    → length (render kvs) ≤ fuel
    → parse_loop fuel m (render kvs) acc ≡ put_all m kvs acc
unfolding render put_all parse_loop next_name split_at
parse_loop-render zero m [] acc h le = refl
parse_loop-render (suc fuel) m [] acc h le = refl
parse_loop-render zero m ((k, v) ∷ []) acc h le = absurd (omega (arith, length-append k (b'=' ∷ v)))
parse_loop-render zero m ((k, v) ∷ e ∷ more) acc h le =
    absurd (omega (arith, length-append k (b'=' ∷ (v ++ b'&' ∷ render (e ∷ more)))))
parse_loop-render (suc fuel) m ((k, v) ∷ []) acc ((ne, lk, lv), nv) le =
    rw (next_name_lem k v ne lk, next_value_last v nv lv, parse_loop)
parse_loop-render (suc fuel) m ((k, v) ∷ e ∷ more) acc ((ne, lk, lv), h) le =
    rw (next_name_lem k _ ne lk, next_value_more v _ lv, parse_loop)
      (parse_loop-render fuel m (e ∷ more) _ h (
        omega (
          arith,
          length-append k (b'=' ∷ (v ++ b'&' ∷ render (e ∷ more))),
          length-append v (b'&' ∷ render (e ∷ more)),
        )))

-- Pairs whose names are not empty and hold no `=`, whose values hold no `&`, and of which the last
-- value is not empty, are read back from their text: each pair is put into the map, in order, with
-- its name and value cut and cleaned as they are stored.
pub parse-render :
    (m : CheckCrlf) (kvs acc : List (Bytes × Bytes))
    → IsRenderable kvs
    → parse m (render kvs) acc ≡ put_all m kvs acc
unfolding parse
parse-render m kvs acc h = parse_loop-render (length (render kvs)) m kvs acc h (omega arith)
