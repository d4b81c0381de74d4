-- ===== src/Tests/Ami.antt =====
-- Messages of a manager interface.
use tst.Common.{
  false, set, ◌++◌, Bytes, List, arith, replicate, codes, refl, none, some, [], ◌∷◌, ◌≡◌,
}
use tst.Pool.Types.{TstData, reset_data, calloc_data}
use tst.Ami.Events.{parse_amievent}
use tst.Ami.Events.Laws.{write_records, parse_amievent-write_records}
use tst.Ami.Message.{remain_of, is_ended}
use tst.Ami.Message.Laws.{filled, arrive}
use tst.Ami.Event.{ami_input, AmiResponse, AmiManage, action_requst, ami_event}
use tst.Ami.Event.Laws.{ami_input_whole}

abbrev answer : List (Bytes × Bytes)
answer =
    (codes "Response", codes "Success")
    ∷ (codes "ActionID", codes "4")
    ∷ (codes "Message", codes "ok")
    ∷ []

parse_amievent-write_records_example :
    parse_amievent (write_records answer (b'\r' ∷ b'\n' ∷ 0 ∷ 9 ∷ [])) ≡ some answer
parse_amievent-write_records_example =
    parse_amievent-write_records answer (9 ∷ []) (omega arith) (ground arith)

abbrev asked : AmiResponse
asked = record { mode = action_requst; result = none; msg = []; responses = [] }

abbrev manage : AmiManage
manage = record {
  p_resp = some asked;
  resp_waitcount = 1;
  actionid = 4;
  woken = [];
  queue = [];
  faulted = false;
}

abbrev message : Bytes
message = b'A' ∷ b':' ∷ b'\r' ∷ b'\n' ∷ b'\r' ∷ b'\n' ∷ []

abbrev inbox : TstData
inbox = record (calloc_data 0) { s_len = 9; checked_len = 7 }

ami_input_whole_example :
    ami_input [] manage (filled inbox [] (replicate 9 0)) (arrive message (some (some b'E') ∷ []))
    ≡ (
      ami_event [] manage (set (message ++ 0 ∷ 0 ∷ 0 ∷ []) 6 0),
      reset_data (filled inbox message (0 ∷ 0 ∷ 0 ∷ [])),
    )
unfolding is_ended remain_of
ami_input_whole_example =
    ami_input_whole [] manage inbox message (replicate 9 0) (some (some b'E') ∷ []) (ground arith)
      (omega arith) (omega arith) refl
