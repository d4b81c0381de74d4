-- ===== src/Http/Query/Fuel.antt =====
-- The loop of `Parse` on enough fuel: a byte of fuel for each byte of the text.
use tst.Common.{
  Option-cases, arith, List, length, ℕ, Bytes, refl, none, some, [], ◌∷◌, inl, inr, zero, suc, ◌≤◌,
  ◌<◌, ◌≡◌,
}
use tst.Http.Query.{CheckCrlf, split_at, next_name, next_value, parse_loop}
use tst.Http.Query.Parsing.{split_at-length}

next_name-length :
    (text name after : Bytes) → next_name text ≡ some (name, after) → length after < length text
unfolding next_name
next_name-length text name after e = elim (Option-cases (split_at b'=' text)) [
  | inl gone ↦ absurd (ground arith)
  | inr ((front, back), found) ↦ ground (arith, split_at-length b'=' text front back found)
]

next_value-length :
    (text value rest : Bytes)
    → next_value text ≡ some (value, some rest)
    → length rest < length text
unfolding next_value
next_value-length [] value rest e = absurd (ground arith)
next_value-length (c ∷ cs) value rest e = elim (Option-cases (split_at b'&' (c ∷ cs))) [
  | inl gone ↦ absurd (ground arith)
  | inr ((front, back), found) ↦ ground (arith, split_at-length b'&' (c ∷ cs) front back found)
]

-- However much fuel is given beyond a unit for each byte of the text, the loop does the same.
parse_loop_fuel :
    (fuel more : ℕ) (m : CheckCrlf) (text : Bytes) (acc : List (Bytes × Bytes))
    → length text ≤ fuel
    → length text ≤ more
    → parse_loop fuel m text acc ≡ parse_loop more m text acc
unfolding parse_loop next_name split_at
parse_loop_fuel zero zero m text acc h k = refl
parse_loop_fuel zero (suc more) m [] acc h k = refl
parse_loop_fuel zero (suc more) m (c ∷ cs) acc h k = absurd (omega arith)
parse_loop_fuel (suc fuel) zero m [] acc h k = refl
parse_loop_fuel (suc fuel) zero m (c ∷ cs) acc h k = absurd (omega arith)
parse_loop_fuel (suc fuel) (suc more) m text acc h k = elim (Option-cases (next_name text)) [
  | inl gone ↦ rw (gone, parse_loop) refl
  | inr ((name, after), found) ↦ elim (Option-cases (next_value after)) [
    | inl gone ↦ rw (found, gone, parse_loop) refl
    | inr ((value, none), last) ↦ rw (found, last, parse_loop) refl
    | inr ((value, some rest), next) ↦
        let first : length after < length text = next_name-length text name after found in
        let second : length rest < length after = next_value-length after value rest next in
        rw (found, next, parse_loop)
          (parse_loop_fuel fuel more m rest _ (omega arith) (omega arith))
  ]
]
