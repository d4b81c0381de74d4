-- ===== src/Ami/ProcessEvents/Pipeline.antt =====
-- A registered event on its way from the socket to its handler.
use tst.Common.{
  ◌<◌, if◌then◌else◌, arith, ℕ, none, some, List, [], ◌∷◌, ◌++◌, ◌≤◌, ◌≡◌, ◌∙◌, refl, ap, Bytes,
  All, length, codes, le→ltb, map,
}
use tst.Http.Query.{c_str, split_at}
use tst.Http.Query.Parsing.{Lacks, split_at-append}
use tst.Ami.Events.{parse_amievent}
use tst.Ami.Events.Laws.{IsValue, write_records, IsRecord, parse_amievent-write_records}
use tst.Ami.Event.{queued, AmiManage, line_of, event_id, is_registered, hand_on}
use tst.Ami.ProcessEvents.{g_process, run_event, dialend_head, event_dialend}
use tst.Ami.ProcessEvents.Laws.{report, event_dialend-report}

c_str-front : (front rest : Bytes) → Lacks 0 front → c_str (front ++ rest) ≡ front ++ c_str rest
unfolding c_str
c_str-front [] rest h = refl
c_str-front (c ∷ front) rest h = ground (arith, c_str-front front rest h.1)

line_of-front :
    (front rest : Bytes)
    → Lacks b'\r' front
    → Lacks b'\n' front
    → line_of (front ++ b'\r' ∷ rest) ≡ front
unfolding line_of
line_of-front [] rest hr hn = refl
line_of-front (c ∷ front) rest hr hn = ground (arith, line_of-front front rest hr.1 hn.1)

-- The name of an event is the value of its first record.
event_id-write :
    (k v rest : Bytes)
    → Lacks 0 k
    → Lacks b':' k
    → Lacks 0 v
    → Lacks b'\r' v
    → Lacks b'\n' v
    → event_id (k ++ b':' ∷ b' ' ∷ (v ++ b'\r' ∷ rest)) ≡ some (some v)
unfolding event_id
event_id-write k v rest k0 kc v0 vr vn =
    let shown = v ++ b'\r' ∷ c_str rest in
    let cut : c_str (k ++ b':' ∷ b' ' ∷ (v ++ b'\r' ∷ rest)) ≡ k ++ b':' ∷ b' ' ∷ shown =
      c_str-front k _ k0 ∙ ap (λ t. k ++ b':' ∷ b' ' ∷ t) (c_str-front v (b'\r' ∷ rest) v0) in
    let read : split_at b':' (c_str (k ++ b':' ∷ b' ' ∷ (v ++ b'\r' ∷ rest)))
        ≡ some (k, b' ' ∷ shown) =
      ap (split_at b':') cut ∙ split_at-append b':' k (b' ' ∷ shown) kc in
    rw (read, event_id) (ap (λ x. some (some x)) (line_of-front v (c_str rest) vr vn))

IsValue-Lacks : (v : Bytes) → IsValue v → Lacks 0 v × Lacks b'\r' v
IsValue-Lacks [] h = (tt, tt)
IsValue-Lacks (c ∷ cs) h = (h.1, h.2)

-- Let a message be at most 100 records of the form that the parser reads back, ended by an empty
-- line, whose first value, the event's name, holds no LF. Its records are handed to the thread
-- pool, behind those that wait there, exactly where the name is registered; else nothing changes.
pub hand_on-write_records :
    (names : List Bytes) (m : AmiManage) (k v : Bytes) (more : List (Bytes × Bytes)) (junk : Bytes)
    → length more < 100
    → All IsRecord ((k, v) ∷ more)
    → Lacks b'\n' v
    → hand_on names m (write_records ((k, v) ∷ more) (b'\r' ∷ b'\n' ∷ 0 ∷ junk))
      ≡ (if is_registered names v then record m { queue = m.queue ++ ((k, v) ∷ more) ∷ [] } else m)
unfolding hand_on write_records
hand_on-write_records names m k v more junk few ((ne, k0, kc, hv), rs) vn =
    let (v0, vr) = IsValue-Lacks v hv in
    let rest = b'\n' ∷ write_records more (b'\r' ∷ b'\n' ∷ 0 ∷ junk) in
    let name = event_id-write k v rest k0 kc v0 vr vn in
    let records =
      parse_amievent-write_records ((k, v) ∷ more) junk (omega arith) ((ne, k0, kc, hv), rs) in
    let records' : parse_amievent (k ++ b':' ∷ b' ' ∷ (v ++ b'\r' ∷ rest)) ≡ some ((k, v) ∷ more) =
      records in
    rw (name, hand_on) (ap (λ t. if is_registered names v then queued m t else m) records')

-- The names that the program registers, and the records of a `DialEnd` event.
abbrev pub registered : List Bytes
registered = map (λ e. e.0) g_process

abbrev pub dialend : List (Bytes × Bytes) → List (Bytes × Bytes)
dialend more = (codes "Event", codes "DialEnd") ∷ more

run_event-dialend :
    (thread_no : ℕ) (more : List (Bytes × Bytes))
    → run_event thread_no (dialend more) ≡ (elim (event_dialend thread_no (dialend more)) [
      | none ↦ none
      | some next ↦ some (dialend more, next)
    ])
unfolding run_event
run_event-dialend thread_no more = refl

-- Let a `DialEnd` event, of at most 100 records of the form that the parser reads back, have a log
-- of 2048 bytes or more. It is handed to the thread pool, and there its handler writes behind the
-- array for the log.
pub dialend_overrun :
    (m : AmiManage) (more : List (Bytes × Bytes)) (junk : Bytes) (thread_no : ℕ)
    → length more < 100
    → All IsRecord more
    → 2048 ≤ length (dialend_head thread_no ++ report (dialend more))
    → (hand_on registered m (write_records (dialend more) (b'\r' ∷ b'\n' ∷ 0 ∷ junk))
        ≡ record m { queue = m.queue ++ dialend more ∷ [] })
      × (run_event thread_no (dialend more) ≡ none)
unfolding is_registered
dialend_overrun m more junk thread_no few records long = (
  hand_on-write_records registered m (codes "Event") (codes "DialEnd") more junk few
      (ground arith, records) (ground arith),
  run_event-dialend thread_no more
      ∙ (rw (event_dialend-report thread_no (dialend more)) (rw (le→ltb _ _ long) refl)),
)
