-- ===== src/Ami/ProcessEvents/Laws.antt =====
-- What the handlers of events do with the records, and when a log fits.
use tst.Common.{
  arith, ℕ, true, false, Option, none, some, List, [], ◌∷◌, ◌++◌, ◌+◌, ◌<◌, ◌≡◌, ◌∙◌, refl, ap, sym,
  Bytes, length, length-append, ltb, append_assoc, append-nil, inl, inr, Bool-cases, if◌then◌else◌,
}
use tst.Http.Query.{equal}
use tst.Ami.Events.{get_amivalue}
use tst.Ami.ProcessEvents.{
  put_line, put_records, logging_events, event_dialend, write_value, record_line, indent, msg_size,
  dialend_head, stat_suspend,
}

-- The text of a log: a line for each record, all but the first indented.
abbrev pub later_lines : List (Bytes × Bytes) → Bytes
later_lines [] = []
later_lines (r ∷ rs) = indent ++ (record_line r ++ later_lines rs)

abbrev pub report : List (Bytes × Bytes) → Bytes
report [] = []
report (r ∷ rs) = record_line r ++ later_lines rs

-- Either all of the text is written behind what is there, or the array is too short for it.
abbrev fitting : Bytes → Bytes → Option Bytes
fitting written text =
    if ltb (length written + length text) msg_size then some (written ++ text) else none

fitting-append :
    (written line rest : Bytes) → fitting (written ++ line) rest ≡ fitting written (line ++ rest)
fitting-append written line rest = ground (
  arith,
  length-append {0} written line,
  length-append {0} line rest,
  append_assoc written line rest,
)

fitting-none :
    (written line rest : Bytes)
    → ltb (length written + length line) msg_size ≡ false
    → none ≡ fitting written (line ++ rest)
fitting-none written line rest e = ground (arith, length-append {0} line rest, e)

-- One line, where what follows it is as it should be.
put_line-rest :
    (written line rest : Bytes) (next : Bytes → Option Bytes)
    → (length (written ++ line) < msg_size
        → next (written ++ line) ≡ fitting (written ++ line) rest)
    → (elim (put_line written line) [ none ↦ none | some t ↦ next t ])
      ≡ fitting written (line ++ rest)
unfolding put_line
put_line-rest written line rest next go =
    elim (Bool-cases (ltb (length written + length line) msg_size)) [
      | inl e ↦ rw e (
          go (ground (arith, length-append {0} written line, e)) ∙ fitting-append written line rest)
      | inr e ↦ rw e (fitting-none written line rest e)
    ]

put_records_later :
    (written : Bytes) (rs : List (Bytes × Bytes))
    → length written < msg_size
    → put_records true written rs ≡ fitting written (later_lines rs)
unfolding put_records
put_records_later written [] small = ground (arith, small, append-nil written)
put_records_later written (r ∷ rs) small =
    put_line-rest written (indent ++ record_line r) (later_lines rs) (λ t. put_records true t rs)
      (put_records_later (written ++ (indent ++ record_line r)) rs)

put_records_lem :
    (written : Bytes) (rs : List (Bytes × Bytes))
    → length written < msg_size
    → put_records false written rs ≡ fitting written (report rs)
unfolding put_records
put_records_lem written [] small = ground (arith, small, append-nil written)
put_records_lem written (r ∷ rs) small =
    put_line-rest written (record_line r) (later_lines rs) (λ t. put_records true t rs)
      (put_records_later (written ++ record_line r) rs)

-- `logging_events` writes a line for each record, all but the first indented, exactly where they
-- are shorter than 2048 bytes; else it writes behind its array.
pub logging_events-report :
    (events : List (Bytes × Bytes))
    → logging_events events
      ≡ (if ltb (length (report events)) 2048 then some (report events) else none)
unfolding logging_events
logging_events-report events = put_records_lem [] events (omega arith) ∙ ground arith

-- `event_dialend` ends exactly where its head and the lines of the records are shorter than 2048
-- bytes.
pub event_dialend-report :
    (thread_no : ℕ) (events : List (Bytes × Bytes))
    → event_dialend thread_no events ≡ (
        if ltb (length (dialend_head thread_no ++ report events)) 2048
        then some stat_suspend
        else none)
unfolding event_dialend
event_dialend-report thread_no events =
    let all =
      put_line-rest [] (dialend_head thread_no) (report events) (λ t. put_records false t events)
        (put_records_lem (dialend_head thread_no) events) in
    ground (arith, all)

equal-eq : (xs ys : Bytes) → equal xs ys ≡ true → xs ≡ ys
unfolding equal
equal-eq [] [] e = refl
equal-eq [] (y ∷ ys) e = absurd (cc e)
equal-eq (x ∷ xs) [] e = absurd (cc e)
equal-eq (x ∷ xs) (y ∷ ys) e = ground (arith, equal-eq xs ys)

equal_comm : (xs ys : Bytes) → equal xs ys ≡ equal ys xs
unfolding equal
equal_comm [] [] = refl
equal_comm [] (y ∷ ys) = refl
equal_comm (x ∷ xs) [] = refl
equal_comm (x ∷ xs) (y ∷ ys) = ground (arith, equal_comm xs ys)

-- A write through the value of a key is seen under that key, and under no other one.
get_amivalue-write_value :
    (key : Bytes) (f : Bytes → Bytes) (asked : Bytes) (events : List (Bytes × Bytes))
    → f [] ≡ []
    → get_amivalue (write_value key f events) asked
      ≡ (if equal key asked then f (get_amivalue events asked) else get_amivalue events asked)
unfolding get_amivalue write_value
get_amivalue-write_value key f asked [] nil = ground (arith, nil)
get_amivalue-write_value key f asked ((k, v) ∷ more) nil = elim (Bool-cases (equal k key)) [
  | inl e ↦
      let same : equal k asked ≡ equal key asked = ap (λ x. equal x asked) (equal-eq k key e) in
      ground (arith, e, same)
  | inr ne ↦ elim (Bool-cases (equal k asked)) [
    | inl hit ↦
        let off : equal key asked ≡ false =
          ap (equal key) (sym (equal-eq k asked hit)) ∙ equal_comm key k ∙ ne in
        ground (arith, ne, hit, off)
    | inr miss ↦ ground (arith, ne, miss, get_amivalue-write_value key f asked more nil)
  ]
]
