-- ===== src/Ami/ProcessEvents.antt =====
-- amiproc/processevents.cpp: the handlers of events; amiproc/amiproc.cpp: `logging_events`, and the
-- events that `main` registers; AsyncThreadPool/AsyncThreadPool.h: `ATP_STAT`. `none` is a write
-- behind an array. Values that a handler reads and does not use are left out.
pub mod Laws
pub mod Pipeline
use tst.Common.{
  refl, sym, ap, subst, ◌∙◌, inl, inr, zero, suc, ◌-◌, ◌*◌, ◌/◌, ◌%◌, ◌^◌, ◌≤◌, ◌<◌, ◌≡◌, ◌≢◌, ◌↔◌,
  ◌⊎◌, ◌&&◌, ◌||◌, ℕ, Bool, true, false, Option, none, some, List, [], ◌∷◌, ◌++◌, ◌+◌, ◌==◌, Bytes,
  length, take, ltb, codes, not, if◌then◌else◌,
}
use tst.Http.Query.{equal}
use tst.Http.Response.{decimal}
use tst.Ami.Events.{get_amivalue}
use tst.Ami.Actions.{process_events}

pub data AtpStat : Type 0 where
  stat_suspend stat_run stat_exit stat_exited : AtpStat

-- `char msg[2048]`
abbrev pub msg_size : ℕ
msg_size = 2048

-- `len += sprintf(msg + len, …)`, behind what is written, with the 0 that ends it.
unfoldable pub put_line : Bytes → Bytes → Option Bytes
put_line written line =
    if ltb (length written + length line) msg_size then some (written ++ line) else none

abbrev pub indent : Bytes
indent = codes "    "

abbrev pub record_line : Bytes × Bytes → Bytes
record_line (key, value) = key ++ (codes ": " ++ (value ++ codes "\n"))

-- The loop over the records; the first line is not indented.
unfoldable pub put_records : (is_later : Bool) → Bytes → List (Bytes × Bytes) → Option Bytes
unfolding put_line
put_records is_later written [] = some written
put_records is_later written (r ∷ rs) =
    elim (put_line written ((if is_later then indent else []) ++ record_line r)) [
      | none ↦ none
      | some text ↦ put_records true text rs
    ]

unfoldable pub logging_events : List (Bytes × Bytes) → Option Bytes
unfolding put_records
logging_events events = put_records false [] events

-- `event_hangup`, `event_dialbegin` and `event_varset`.
unfoldable pub event_hangup : List (Bytes × Bytes) → Option AtpStat
unfolding logging_events
event_hangup events = elim (logging_events events) [ none ↦ none | some text ↦ some stat_suspend ]

unfoldable pub event_dialbegin : List (Bytes × Bytes) → Option AtpStat
unfolding event_hangup
event_dialbegin events = event_hangup events

unfoldable pub event_varset : List (Bytes × Bytes) → Option AtpStat
unfolding event_hangup
event_varset events = event_hangup events

abbrev pub dialend_head : ℕ → Bytes
dialend_head thread_no =
    codes "--- event_dialend(atp threadno:" ++ (decimal 10 thread_no ++ codes ")...\n")

-- What it does where the status is ANSWER is to read values.
unfoldable pub event_dialend : (thread_no : ℕ) → List (Bytes × Bytes) → Option AtpStat
unfolding put_line put_records
event_dialend thread_no events = elim (put_line [] (dialend_head thread_no)) [
  | none ↦ none
  | some head ↦ elim (put_records false head events) [ none ↦ none | some text ↦ some stat_suspend ]
]

-- `for (p = szUniqueid; *p; p++) if (*p == '.') *p = '0';`
unfoldable pub undot : Bytes → Bytes
undot [] = []
undot (c ∷ cs) = (if c == b'.' then b'0' else c) ∷ undot cs

-- Writes through the pointer that `get_amivalue` gives: to the first value of the key.
unfoldable pub write_value : Bytes → (Bytes → Bytes) → List (Bytes × Bytes) → List (Bytes × Bytes)
unfolding equal
write_value key f [] = []
write_value key f ((k, v) ∷ more) =
    if equal k key then (k, f v) ∷ more else (k, v) ∷ write_value key f more

-- `util_exception(code, fmt, …)`, with `char log[4096]` for the formatted text.
pub record UtilException : Type 0 where
  pub code : ℕ
  pub message : Bytes

unfoldable pub util_exception : ℕ → Bytes → UtilException
util_exception code text = record { code = code; message = take 4095 text }

-- What is thrown for a name that is not known; the handler catches it.
unfoldable pub userevent_thrown : List (Bytes × Bytes) → Option UtilException
unfolding util_exception get_amivalue equal
userevent_thrown events =
    let name = get_amivalue events (codes "UserEvent") in
    if equal name (codes "DTMF_START")
    then none
    else some (
        util_exception 999 (
          codes "Invalid UserEvent type. event name:"
          ++ (name ++ (codes ", channel=" ++ get_amivalue events (codes "Channel")))))

-- The records with the id changed in place, the state, and what is logged of an exception.
unfoldable pub event_userevent :
    List (Bytes × Bytes) → List (Bytes × Bytes) × AtpStat × Option UtilException
unfolding undot write_value userevent_thrown
event_userevent events = (
  write_value (codes "Uniqueid") undot events,
  stat_suspend,
  elim (userevent_thrown events) [ none ↦ none | some e ↦ if e.code == 999 then none else some e ],
)

-- What `main` registers, by numbers for the addresses of `event_userevent` and `event_dialend`.
abbrev pub g_process : List (Bytes × ℕ)
g_process = (codes "UserEvent", 1) ∷ (codes "DialEnd", 2) ∷ []

-- `process_events` with that table: a worker's run of one event.
unfoldable pub run_event :
    (thread_no : ℕ) → List (Bytes × Bytes) → Option (List (Bytes × Bytes) × AtpStat)
unfolding process_events event_userevent event_dialend
run_event thread_no events = elim (process_events g_process events) [
  | none ↦ some (events, stat_suspend)
  | some func ↦
      if func == 1
      then (let (after, next, traced) = event_userevent events in some (after, next))
      else elim (event_dialend thread_no events) [ none ↦ none | some next ↦ some (events, next) ]
]
