-- ===== src/Http/Query/Cleaning.antt =====
-- What `Parse` stores: the bounds of `szName[MAX_PARSE]` and `szValue[MAX_PARSE]`, and the bytes
-- that the full check takes out.
use tst.Common.{
  length-take, arith, Option-cases, Bool-cases, List, take, All, length, Bytes, ℕ, none, some, [],
  ◌∷◌, inl, inr, zero, suc, ◌-◌, ◌≤◌, ◌<◌, ◌≢◌,
}
use tst.Http.Query.{
  CheckCrlf, check_all, max_parse, check_escape, c_str, stored, equal, put, next_name, next_value,
  parse_loop, parse,
}

-- No blank, no tab, no line end and no 0.
abbrev pub IsPlain : ℕ → Type 0
IsPlain c = (c ≢ b' ') × (c ≢ b'\t') × (c ≢ b'\r') × (c ≢ b'\n') × (c ≢ 0)

-- A text that fits with its final 0, of plain bytes.
abbrev pub IsClean : Bytes → Type 0
IsClean text = (length text < max_parse) × All IsPlain text

abbrev pub IsCleanPair : Bytes × Bytes → Type 0
IsCleanPair (name, value) = IsClean name × IsClean value

length-check_escape : (m : CheckCrlf) (text : Bytes) → length (check_escape m text) ≤ length text
unfolding check_escape
length-check_escape m [] = omega arith
length-check_escape m (c ∷ cs) = ground (arith, length-check_escape m cs)

length-c_str : (text : Bytes) → length (c_str text) ≤ length text
unfolding c_str
length-c_str [] = omega arith
length-c_str (c ∷ cs) = ground (arith, length-c_str cs)

c_str-IsPlain : (text : Bytes) → All IsPlain (c_str (check_escape check_all text))
unfolding check_escape c_str
c_str-IsPlain [] = tt
c_str-IsPlain (c ∷ cs) = ground (arith, c_str-IsPlain cs)

stored-IsClean : (text : Bytes) → IsClean (stored check_all text)
unfolding stored
stored-IsClean text =
    let cut = take (max_parse - 1) text in
    (
      omega (
        arith,
        length-c_str (check_escape check_all cut),
        length-check_escape check_all cut,
        length-take (max_parse - 1) text,
      ),
      c_str-IsPlain cut,
    )

put-IsCleanPair :
    (name value : Bytes) (m : List (Bytes × Bytes))
    → IsCleanPair (name, value)
    → All IsCleanPair m
    → All IsCleanPair (put name value m)
unfolding put
put-IsCleanPair name value [] new h = (new, tt)
put-IsCleanPair name value ((j, w) ∷ m) new (old, h) = elim (Bool-cases (equal j name)) [
  | inl same ↦ rw (same, put) (new, h)
  | inr other ↦ rw (other, put) (old, put-IsCleanPair name value m new h)
]

parse_loop-IsCleanPair :
    (fuel : ℕ) (text : Bytes) (acc : List (Bytes × Bytes))
    → All IsCleanPair acc
    → All IsCleanPair (parse_loop fuel check_all text acc)
unfolding parse_loop
parse_loop-IsCleanPair zero text acc h = h
parse_loop-IsCleanPair (suc fuel) text acc h = elim (Option-cases (next_name text)) [
  | inl gone ↦ rw (gone, parse_loop) h
  | inr ((name, after), found) ↦ elim (Option-cases (next_value after)) [
    | inl gone ↦ rw (found, gone, parse_loop) h
    | inr ((value, none), last) ↦
        rw (found, last, parse_loop)
          (put-IsCleanPair _ _ acc (stored-IsClean name, stored-IsClean value) h)
    | inr ((value, some rest), more) ↦
        rw (found, more, parse_loop)
          (parse_loop-IsCleanPair fuel rest _
            (put-IsCleanPair _ _ acc (stored-IsClean name, stored-IsClean value) h))
  ]
]

-- With the full check, whatever the query is, every name and every value in the map has fewer than
-- 128 bytes, and none of them is a blank, a tab, a line end or a 0.
pub parse-IsCleanPair : (text : Bytes) → All IsCleanPair (parse check_all text [])
unfolding parse
parse-IsCleanPair text = parse_loop-IsCleanPair (length text) text [] tt
