-- ===== src/Ami/Event.antt =====
-- amiproc/amiproc.cpp: `ami_event`, what it does with a message that is complete.
pub mod Laws
use tst.Common.{
  set, leb, not, length, codes, take, ltb, Bool, Option, Bytes, List, ℕ, refl, sym, ap, subst, ◌∙◌,
  none, some, true, false, [], ◌∷◌, inl, inr, zero, suc, ◌+◌, ◌-◌, ◌*◌, ◌/◌, ◌%◌, ◌^◌, ◌≤◌, ◌<◌,
  ◌≡◌, ◌≢◌, ◌↔◌, ◌⊎◌, ◌++◌, ◌==◌, if◌then◌else◌, ◌&&◌, ◌||◌,
}
use tst.Http.Query.{equal, c_str, split_at}
use tst.Pool.Types.{TstData, u32_mod, reset_data}
use tst.Ami.Message.{is_ended, read_message, remain_of}
use tst.Ami.Events.{parse_amievent, get_amivalue}

pub data AmiMode : Type 0 where
  action_none action_requst action_response : AmiMode

-- The values of `result` that `ami_event` stores: 0, -1 and -2.
pub data AmiResult : Type 0 where
  success failure past : AmiResult

-- `AMI_RESPONSE`; `result` is none until it is set.
pub record AmiResponse : Type 0 where
  pub mode : AmiMode
  pub result : Option AmiResult
  pub msg : Bytes
  pub responses : List (Bytes × Bytes)

-- `AMI_MANAGE`: who waits, and the number of the last action. `woken` holds the responses whose
-- waiting caller was signalled, and `queue` the events handed to the thread pool, oldest first.
-- `faulted` is set by an access through a null pointer and by a write behind an array: what the
-- program does from there on is not said.
pub record AmiManage : Type 0 where
  pub p_resp : Option AmiResponse
  pub resp_waitcount : ℕ
  pub actionid : ℕ
  pub woken : List AmiResponse
  pub queue : List (List (Bytes × Bytes))
  pub faulted : Bool

-- `strncmp(text, prefix, length prefix) == 0`
unfoldable pub starts : Bytes → Bytes → Bool
unfolding equal
starts text prefix = equal (take (length prefix) text) prefix

-- `isspace`
abbrev is_space : ℕ → Bool
is_space c = c == b' ' || (leb 9 c && leb c 13)

-- The number that digits give, up to the first byte that is none.
unfoldable pub digits : ℕ → Bytes → ℕ
digits acc [] = acc
digits acc (c ∷ cs) =
    let rest = digits (acc * 10 + (c - b'0')) cs in if ltb c b'0' || ltb b'9' c then acc else rest

-- `atoi`, by the 32 bits of its int: blanks in front are passed over, and a sign may follow them. For
-- a number that is no long the language leaves the result open.
unfoldable pub atoi : Bytes → ℕ
unfolding digits
atoi [] = 0
atoi (c ∷ cs) =
    let rest = atoi cs in
    if is_space c
    then rest
    else if c == b'-'
    then (u32_mod - digits 0 cs % u32_mod) % u32_mod
    else if c == b'+'
    then digits 0 cs % u32_mod
    else digits 0 (c ∷ cs) % u32_mod

unfoldable pub first_value : List (Bytes × Bytes) → Bytes
first_value [] = []
first_value ((k, v) ∷ more) = v

-- `msg[128]`, of which the last stays 0.
abbrev pub msg_len : ℕ
msg_len = 127

-- The answer to an action that the caller waits for, by its ActionID: none for an earlier one.
unfoldable pub judge : AmiManage → AmiResponse → List (Bytes × Bytes) → Option AmiResponse
unfolding get_amivalue atoi starts first_value
judge m r records =
    let id = atoi (get_amivalue records (codes "ActionID")) in
    if ltb id m.actionid
    then none
    else if ltb m.actionid id
    then some (record r {
      mode = action_response;
      result = some past;
      msg = codes "action id is past...";
      responses = records;
    })
    else some (record r {
      mode = action_response;
      result = some (if starts (first_value records) (codes "Success") then success else failure);
      msg = take msg_len (get_amivalue records (codes "Message"));
      responses = records;
    })

-- What stands behind `: ` in the first line, up to its end.
unfoldable pub line_of : Bytes → Bytes
line_of [] = []
line_of (c ∷ cs) = let rest = c ∷ line_of cs in if c == b'\r' || c == b'\n' then [] else rest

-- `strchr` gives a null pointer, which is read through, where there is no colon: `none`.
unfoldable pub event_id : Bytes → Option (Option Bytes)
unfolding split_at line_of c_str
event_id text = elim (split_at b':' (c_str text)) [
  | none ↦ none
  | some (front, []) ↦ some none
  | some (front, c ∷ rest) ↦ if c == b' ' then some (some (line_of rest)) else some none
]

unfoldable pub is_registered : List Bytes → Bytes → Bool
unfolding equal
is_registered [] name = false
is_registered (n ∷ more) name = equal n name || is_registered more name

abbrev pub fault : AmiManage → AmiManage
fault m = record m { faulted = true }

abbrev pub queued : AmiManage → Option (List (Bytes × Bytes)) → AmiManage
queued m none = fault m
queued m (some records) = record m { queue = m.queue ++ records ∷ [] }

-- `check_ami_event_handler`: a registered event goes to the thread pool, with its records.
unfoldable pub hand_on : List Bytes → AmiManage → Bytes → AmiManage
unfolding event_id is_registered parse_amievent
hand_on g_process m text = elim (event_id text) [
  | none ↦ fault m
  | some none ↦ m
  | some (some name) ↦ if is_registered g_process name then queued m (parse_amievent text) else m
]

abbrev pub is_request : AmiMode → Bool
is_request action_requst = true
is_request _ = false

abbrev pub with_records : AmiManage → AmiResponse → List (Bytes × Bytes) → AmiManage
with_records m r records = record m { p_resp = some (record r { responses = records }) }

-- A `Response:` while a caller waits: it wakes the caller, or, answering an earlier action, leaves
-- its records and is handed on. One that nobody waits for in the right way ends the wait unsignalled.
unfoldable pub on_response : List Bytes → AmiManage → AmiResponse → Bytes → AmiManage
unfolding judge hand_on parse_amievent
on_response g_process m r text =
    if not (m.resp_waitcount == 0) && is_request r.mode
    then elim (parse_amievent text) [
      | none ↦ fault m
      | some records ↦ elim (judge m r records) [
        | none ↦ hand_on g_process (with_records m r records) text
        | some answer ↦ record m { p_resp = none; woken = m.woken ++ answer ∷ [] }
      ]
    ]
    else hand_on g_process (record m { p_resp = none }) text

-- `text` is the memory of the buffer, from the message on.
unfoldable pub on_message : List Bytes → AmiManage → Option AmiResponse → Bytes → AmiManage
unfolding on_response hand_on starts
on_message g_process m none text = hand_on g_process m text
on_message g_process m (some r) text =
    if starts text (codes "Response:")
    then on_response g_process m r text
    else hand_on g_process m text

-- The handler behind the loop, with the manager's own `pResp`.
unfoldable pub ami_event : List Bytes → AmiManage → Bytes → AmiManage
unfolding on_message
ami_event g_process m text = on_message g_process m m.p_resp text

-- The branch for EPOLLIN as a whole: the loop, and, once the message is complete, what it means. The
-- buffer is reset behind it; an incomplete message stays there.
unfoldable pub ami_input :
    List Bytes → AmiManage → TstData → List (Option (Option ℕ)) → AmiManage × TstData
unfolding ami_event read_message remain_of is_ended reset_data
ami_input g_process m d answers =
    let got = (read_message (remain_of d) d answers).0 in
    if is_ended got
    then (ami_event g_process m (set got.s got.com_len 0), reset_data got)
    else (m, got)
