-- ===== src/Ami/Event/Laws.antt =====
-- Which caller is woken, and with what.
use tst.Common.{
  drop, ◌^◌, ◌≤◌, ◌<◌, le→ltb, arith, All, refl, ap, ◌∙◌, none, some, true, false, [], ◌∷◌, ◌≡◌,
  ◌≢◌, ◌++◌, ◌==◌, if◌then◌else◌,
}
use tst.Ami.Events.{parse_amievent, get_amivalue}
use tst.Ami.Events.Laws.{write_records, IsRecord, parse_amievent-write_records}
use tst.Pool.Types.{TstData, reset_data}
use tst.Ami.Message.{is_ended, remain_of}
use tst.Ami.Message.Laws.{filled, arrive, IsFirstEnd, read_message-IsFirstEnd}
use tst.Ami.Event.{
  set, length, ℕ, ami_input, Option, take, codes, Bytes, List, AmiResponse, AmiManage,
  action_requst, action_response, success, failure, starts, atoi, first_value, judge, on_response,
  on_message, ami_event, msg_len,
}

judge_answers :
    (m : AmiManage) (r : AmiResponse) (kvs : List (Bytes × Bytes))
    → atoi (get_amivalue kvs (codes "ActionID")) ≡ m.actionid
    → judge m r kvs
      ≡ some (record r {
        mode = action_response;
        result = some (if starts (first_value kvs) (codes "Success") then success else failure);
        msg = take msg_len (get_amivalue kvs (codes "Message"));
        responses = kvs;
      })
unfolding judge
judge_answers m r kvs same =
    rw
      (
        le→ltb (atoi (get_amivalue kvs (codes "ActionID"))) m.actionid (omega arith),
        le→ltb m.actionid (atoi (get_amivalue kvs (codes "ActionID"))) (omega arith),
        judge,
      )
      refl

-- `on_response` for a caller that waits as `ami_sync` makes it wait.
on_response_judged :
    (names : List Bytes) (m : AmiManage) (r answer : AmiResponse) (text : Bytes)
    (kvs : List (Bytes × Bytes))
    → r.mode ≡ action_requst
    → m.resp_waitcount ≢ 0
    → parse_amievent text ≡ some kvs
    → judge m r kvs ≡ some answer
    → on_response names m r text ≡ record m { p_resp = none; woken = m.woken ++ answer ∷ [] }
unfolding on_response
on_response_judged names m r answer text kvs asked counted read e =
    let some_wait : (m.resp_waitcount == 0) ≡ false = ground arith in
    simp (asked, some_wait, read, e, on_response)

-- Let a caller wait for the answer to its last action, and the message be at most 100 records of the form that
-- the parser reads back, beginning with `Response:`, ended by an empty line and with that action's
-- number: the caller is woken with these records, with success exactly where the first value
-- starts so, and with the text of `Message`, and nothing is handed on.
pub ami_event_answers :
    (names : List Bytes) (m : AmiManage) (r : AmiResponse) (kvs : List (Bytes × Bytes))
    (junk : Bytes)
    → m.p_resp ≡ some r
    → r.mode ≡ action_requst
    → m.resp_waitcount ≢ 0
    → length kvs ≤ 100
    → All IsRecord kvs
    → starts (write_records kvs (b'\r' ∷ b'\n' ∷ 0 ∷ junk)) (codes "Response:") ≡ true
    → atoi (get_amivalue kvs (codes "ActionID")) ≡ m.actionid
    → ami_event names m (write_records kvs (b'\r' ∷ b'\n' ∷ 0 ∷ junk)) ≡ record m {
      p_resp = none;
      woken =
          m.woken
          ++ (record r {
            mode = action_response;
            result = some (if starts (first_value kvs) (codes "Success") then success else failure);
            msg = take msg_len (get_amivalue kvs (codes "Message"));
            responses = kvs;
          })
            ∷ [];
    }
unfolding ami_event on_message
ami_event_answers names m r kvs junk waits asked counted few records front same =
    let text = write_records kvs (b'\r' ∷ b'\n' ∷ 0 ∷ junk) in
    ap (λ o. on_message names m o text) waits
    ∙ (rw (front, on_message) refl)
    ∙ on_response_judged names m r _ text kvs asked counted
        (parse_amievent-write_records kvs junk few records) (judge_answers m r kvs same)

-- Where the bytes that arrive are a message that ends with its last byte and not before, and the
-- buffer and the count of bytes that have arrived leave it room, the branch does what `ami_event`
-- does with the message and a 0 behind it, and resets the buffer; the access through a null
-- pointer that a message without a colon leads to is part of it, in `faulted`.
pub ami_input_whole :
    (names : List Bytes) (m : AmiManage) (d : TstData) (msg rest : Bytes)
    (more : List (Option (Option ℕ)))
    → IsFirstEnd d [] msg rest
    → length msg ≤ remain_of (filled d [] rest)
    → length msg < 2 ^ 32
    → is_ended (filled d msg (drop (length msg) rest)) ≡ true
    → ami_input names m (filled d [] rest) (arrive msg more) ≡ (
      ami_event names m (set (msg ++ drop (length msg) rest) (length msg) 0),
      reset_data (filled d msg (drop (length msg) rest)),
    )
unfolding ami_input
ami_input_whole names m d msg rest more first room small whole =
    rw
      (
        read_message-IsFirstEnd (remain_of (filled d [] rest)) d [] msg rest more first room
            (omega arith),
        whole,
        ami_input,
      )
      refl
