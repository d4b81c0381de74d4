-- ===== src/Http/Query.antt =====
-- amiproc/http.h, `CQueryString`: the query of a URL, or of a websocket text, as a map of texts.
pub mod Parsing
pub mod Cleaning
pub mod Fuel
use tst.Common.{
  refl, sym, ap, subst, ◌∙◌, none, some, [], ◌∷◌, inl, inr, ◌+◌, ◌-◌, ◌*◌, ◌/◌, ◌%◌, ◌^◌, ◌≤◌, ◌<◌,
  ◌≡◌, ◌≢◌, ◌↔◌, ◌⊎◌, ◌++◌, ◌==◌, if◌then◌else◌, ◌&&◌, ◌||◌, ℕ, zero, suc, Bool, true, false, Bytes,
  List, Option, length, take, ltb,
}

-- The bits of `CheckCRLF`.
pub record CheckCrlf : Type 0 where
  pub cr : Bool
  pub lf : Bool
  pub ws : Bool
  pub tab : Bool

abbrev pub check_none : CheckCrlf
check_none = record { cr = false; lf = false; ws = false; tab = false }

abbrev pub check_all : CheckCrlf
check_all = record { cr = true; lf = true; ws = true; tab = true }

abbrev pub max_parse : ℕ
max_parse = 128

-- `CheckEscape` on the bytes before the terminating 0: a blank is taken out, the rest moving up; a
-- line end becomes a 0, and the loop goes on behind it.
unfoldable pub check_escape : CheckCrlf → Bytes → Bytes
check_escape m [] = []
check_escape m (c ∷ cs) =
    let rest = check_escape m cs in
    if (c == b' ' && m.ws) || (c == b'\t' && m.tab)
    then rest
    else if (c == b'\r' && m.cr) || (c == b'\n' && m.lf)
    then 0 ∷ rest
    else c ∷ rest

-- The text that a C string in this memory shows: what stands before the first 0.
unfoldable pub c_str : Bytes → Bytes
c_str [] = []
c_str (c ∷ cs) = let rest = c ∷ c_str cs in if c == 0 then [] else rest

-- `strchr(text, mark)`: what stands before the first mark, and what behind it.
unfoldable pub split_at : ℕ → Bytes → Option (Bytes × Bytes)
split_at mark [] = none
split_at mark (c ∷ cs) =
    let more = elim (split_at mark cs) as (λ _. Option (Bytes × Bytes)) [
      | none ↦ none
      | some (front, back) ↦ some (c ∷ front, back)
    ] in
    if c == mark then some ([], cs) else more

-- What is stored of a name or a value: at most `MAX_PARSE - 1` bytes, cleaned where a check is set.
unfoldable pub stored : CheckCrlf → Bytes → Bytes
unfolding check_escape c_str
stored m text = c_str (check_escape m (take (max_parse - 1) text))

unfoldable pub equal : Bytes → Bytes → Bool
equal [] [] = true
equal (x ∷ xs) (y ∷ ys) = x == y && equal xs ys
equal _ _ = false

-- `m_mapQuery[name] = value`
unfoldable pub put : Bytes → Bytes → List (Bytes × Bytes) → List (Bytes × Bytes)
unfolding equal
put k v [] = (k, v) ∷ []
put k v ((j, w) ∷ m) = if equal j k then (k, v) ∷ m else (j, w) ∷ put k v m

-- `Get`: the empty text for a name that is not there.
unfoldable pub get : Bytes → List (Bytes × Bytes) → Bytes
unfolding equal
get k [] = []
get k ((j, w) ∷ m) = if equal j k then w else get k m

-- The name before the first `=`, and what follows it; none ends the loop, an empty name too.
unfoldable pub next_name : Bytes → Option (Bytes × Bytes)
unfolding split_at
next_name text = elim (split_at b'=' text) [
  | none ↦ none
  | some ([], rest) ↦ none
  | some (c ∷ name, rest) ↦ some (c ∷ name, rest)
]

-- The value up to the next `&`, and what follows it, if there is one. No text at all ends the loop.
unfoldable pub next_value : Bytes → Option (Bytes × Option Bytes)
unfolding split_at
next_value [] = none
next_value (c ∷ cs) = elim (split_at b'&' (c ∷ cs)) [
  | none ↦ some (c ∷ cs, none)
  | some (value, rest) ↦ some (value, some rest)
]

-- The loop, from `pNow` on. Each round takes a byte at least, so that fuel for each byte suffices.
unfoldable pub parse_loop : ℕ → CheckCrlf → Bytes → List (Bytes × Bytes) → List (Bytes × Bytes)
parse_loop zero m text acc = acc
parse_loop (suc fuel) m text acc = elim (next_name text) [
  | none ↦ acc
  | some (name, after) ↦ elim (next_value after) [
    | none ↦ acc
    | some (value, none) ↦ put (stored m name) (stored m value) acc
    | some (value, some rest) ↦ parse_loop fuel m rest (put (stored m name) (stored m value) acc)
  ]
]

-- `Parse`, from the map as it is.
unfoldable pub parse : CheckCrlf → Bytes → List (Bytes × Bytes) → List (Bytes × Bytes)
unfolding parse_loop next_name next_value split_at stored put
parse m text acc = parse_loop (length text) m text acc
