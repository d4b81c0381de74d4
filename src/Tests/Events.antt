-- ===== src/Tests/Events.antt =====
-- Events that the program handles.
use tst.Common.{
  false, none, ◌≡◌, arith, ℕ, List, [], ◌∷◌, Bytes, replicate, codes, zero, suc, ◌≢◌, All,
}
use tst.Http.Query.Parsing.{Lacks}
use tst.Ami.Events.Laws.{write_records, IsRecord}
use tst.Ami.Event.{AmiManage, hand_on, is_registered}
use tst.Ami.ProcessEvents.Pipeline.{registered, dialend, hand_on-write_records, dialend_overrun}
use tst.Ami.ProcessEvents.{run_event}
use tst.Http.Response.{decimal}

abbrev idle_manage : AmiManage
idle_manage = record {
  p_resp = none;
  resp_waitcount = 0;
  actionid = 0;
  woken = [];
  queue = [];
  faulted = false;
}

abbrev dtmf : List (Bytes × Bytes)
dtmf =
    (codes "Event", codes "UserEvent")
    ∷ (codes "UserEvent", codes "DTMF_START")
    ∷ (codes "Uniqueid", codes "16.6")
    ∷ []

abbrev before_id : List (Bytes × Bytes)
before_id = (codes "Event", codes "UserEvent") ∷ (codes "UserEvent", codes "DTMF_START") ∷ []

-- The second `Uniqueid` stays.
abbrev behind_id : List (Bytes × Bytes)
behind_id = (codes "Uniqueid", codes "17.7") ∷ []

hand_on-write_records_example :
    hand_on registered idle_manage (write_records dtmf (b'\r' ∷ b'\n' ∷ 0 ∷ []))
    ≡ record idle_manage { queue = dtmf ∷ [] }
unfolding is_registered
hand_on-write_records_example =
    hand_on-write_records registered idle_manage (codes "Event") (codes "UserEvent")
      ((codes "UserEvent", codes "DTMF_START") ∷ (codes "Uniqueid", codes "16.6") ∷ []) []
      (omega arith) (ground arith) (ground arith)

Lacks-replicate : (n c mark : ℕ) → c ≢ mark → Lacks mark (replicate n c)
Lacks-replicate zero c mark ne = tt
Lacks-replicate (suc n) c mark ne = (ne, Lacks-replicate n c mark ne)

-- A message of 2052 bytes, where the buffer takes 4095.
abbrev long_name : List (Bytes × Bytes)
long_name = (codes "DestChannel", replicate 2000 b'x') ∷ []

long_name-IsRecord : All IsRecord long_name
long_name-IsRecord = (
  (
    ground arith,
    ground arith,
    ground arith,
    (
      ground arith,
      Lacks-replicate 2000 b'x' 0 (ground arith),
      Lacks-replicate 2000 b'x' b'\r' (ground arith),
    ),
  ),
  tt,
)

dialend_overrun_example :
    (hand_on registered idle_manage (write_records (dialend long_name) (b'\r' ∷ b'\n' ∷ 0 ∷ []))
      ≡ record idle_manage { queue = dialend long_name ∷ [] })
    × (run_event 1 (dialend long_name) ≡ none)
unfolding decimal
dialend_overrun_example =
    dialend_overrun idle_manage long_name [] 1 (omega arith) long_name-IsRecord (omega arith)
