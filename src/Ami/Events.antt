-- ===== src/Ami/Events.antt =====
-- amiproc/amiproc.cpp: `parse_amievent`, which cuts a message into records `key: value`, each
-- ending in CR LF, and `get_amivalue`. The pointers into `event` are the texts that they show.
pub mod Laws
use tst.Common.{
  ℕ, List, Bytes, Option, refl, sym, ap, subst, ◌∙◌, none, some, true, false, [], ◌∷◌, inl, inr,
  zero, suc, ◌+◌, ◌-◌, ◌*◌, ◌/◌, ◌%◌, ◌^◌, ◌≤◌, ◌<◌, ◌≡◌, ◌≢◌, ◌↔◌, ◌⊎◌, ◌++◌, ◌==◌, if◌then◌else◌,
  ◌&&◌, ◌||◌,
}
use tst.Http.Query.{equal, c_str}

-- Where the loop is: in a key, from `start` to `p`; or behind its colon, with `start` null, or with
-- the value from `start` to `p`.
pub data Scan : Type 0 where
  in_key : Bytes → Scan
  in_value : (key : Bytes) → Option Bytes → Scan

-- `if (!start && *p != ' ') start = p`
unfoldable pub begin : Option Bytes → ℕ → Option Bytes
begin (some v) c = some v
begin none c = if c == b' ' then none else some []

unfoldable pub extend : Option Bytes → ℕ → Option Bytes
extend none c = none
extend (some v) c = some (v ++ c ∷ [])

-- `key[100]` and `value[100]`
abbrev pub places : ℕ
places = 100

abbrev pub put_record :
    Bytes × Bytes → Option (List (Bytes × Bytes)) → Option (List (Bytes × Bytes))
put_record r none = none
put_record r (some rs) = some (r ∷ rs)

-- The records from `p` on, which the second argument says how to go on from, in the memory from `p`
-- on. Behind a line end the loop's `p++` passes the first byte of the next key unread. `left` is how
-- many places `key` and `value` have left: no test keeps the records to them, and `none` is the write
-- of a key behind the last one.
unfoldable pub scan : (left : ℕ) → Scan → Bytes → Option (List (Bytes × Bytes))
unfolding begin extend c_str
scan left s [] = some []
scan left (in_key k) (c ∷ cs) = elim (c == 0) [
  | true ↦ some []
  | false ↦ elim (c == b':') [
    | true ↦ elim left [ zero ↦ none | suc n ↦ scan (suc n) (in_value (c_str k) none) cs ]
    | false ↦ scan left (in_key (k ++ c ∷ [])) cs
  ]
]
scan left (in_value k v) (c ∷ []) = some []
scan left (in_value k v) (c ∷ d ∷ []) = some []
scan left (in_value k v) (c ∷ d ∷ e ∷ rest) = elim (c == 0) [
  | true ↦ some []
  | false ↦ elim (c == b'\r' && d == b'\n') [
    | true ↦ elim (begin v c) [
      | none ↦ scan left (in_key (e ∷ [])) rest
      | some text ↦ elim left [
        | zero ↦ none
        | suc n ↦ put_record (k, text) (scan n (in_key (e ∷ [])) rest)
      ]
    ]
    | false ↦ scan left (in_value k (extend (begin v c) c)) (d ∷ e ∷ rest)
  ]
]

unfoldable pub parse_amievent : Bytes → Option (List (Bytes × Bytes))
unfolding scan
parse_amievent event = scan places (in_key []) event

-- The first value of a key, or the empty text.
unfoldable pub get_amivalue : List (Bytes × Bytes) → Bytes → Bytes
unfolding equal
get_amivalue [] key = []
get_amivalue ((k, v) ∷ more) key = if equal k key then v else get_amivalue more key
