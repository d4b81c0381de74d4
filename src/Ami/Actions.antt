-- ===== src/Ami/Actions.antt =====
-- amiproc/amiproc.h, `AMI_MANAGE`, and amiproc/amiproc.cpp: `ami_sync`, `ami_async`, `process_events`,
-- `atpfunc` and `my_disconnected`. The text of an action is what its format gives.
pub mod Writing
pub mod Laws
use tst.Common.{
  length, ltb, leb, take, not, codes, write_at, Option, ℕ, Bool, Bytes, List, refl, sym, ap, subst,
  ◌∙◌, none, some, true, false, [], ◌∷◌, inl, inr, zero, suc, ◌+◌, ◌-◌, ◌*◌, ◌/◌, ◌%◌, ◌^◌, ◌≤◌,
  ◌<◌, ◌≡◌, ◌≢◌, ◌↔◌, ◌⊎◌, ◌++◌, ◌==◌, if◌then◌else◌, ◌&&◌, ◌||◌,
}
use tst.Pool.Types.{Socket, SocketType, TstData, u32_mod, sock_client}
use tst.Http.Query.{c_str, equal}
use tst.Http.Response.{decimal}
use tst.Ami.Event.{AmiManage, AmiMode, AmiResponse, action_requst, first_value}

abbrev is_client : SocketType → Bool
is_client sock_client = true
is_client _ = false

-- `AMI_RESPONSE` as `ami_sync` hands it out: the answer, or the reason that there is none, with
-- its code in brackets behind each: -99, -98, -8, and the value of `errno`.
pub data SyncResult : Type 0 where
  answered : (r : AmiResponse) → SyncResult
  not_connected own_buffer timed_out : SyncResult
  wait_failed : (errno : ℕ) → SyncResult

-- `%d` of 32 bits: from 2 ^ 31 on they are a negative int.
abbrev pub signed : ℕ → Bytes
signed n = if ltb n (2 ^ 31) then decimal 10 n else b'-' ∷ decimal 10 (u32_mod - n)

abbrev pub action_tail : ℕ → Bytes
action_tail id = codes "ActionID: " ++ (signed id ++ codes "\n\n")

-- `vsnprintf(s, s_len - 1, …)` and, behind the length that it returns, the `sprintf` of the number;
-- the length is then measured. `none` is a write behind the memory.
unfoldable pub write_action : TstData → Bytes → ℕ → Option TstData
unfolding c_str decimal
write_action d text id =
    let s1 = write_at d.s 0 (take (d.s_len - 2) text ++ 0 ∷ []) in
    if leb (length text + length (action_tail id) + 1) (length d.s)
    then (let s2 = write_at s1 (length text) (action_tail id ++ 0 ∷ []) in
        some (record d { req_len = length (c_str s2); s = s2 }))
    else none

-- `sent` is what `write` is given.
pub record Sent : Type 0 where
  pub manage : AmiManage
  pub buffer : TstData
  pub sent : Bytes

pub data SyncStart : Type 0 where
  waiting : (s : Sent) → SyncStart
  refused : (r : SyncResult) → SyncStart
  overrun : SyncStart

abbrev pub new_request : AmiResponse
new_request = record { mode = action_requst; result = none; msg = []; responses = [] }

-- `ami_sync` up to its wait, with `is_own` for an action that stands in the send buffer itself.
unfoldable pub sync_start :
    Option (Socket AmiManage) → (is_own : Bool) → AmiManage → Bytes → SyncStart
unfolding write_action
sync_start none is_own m text = refused not_connected
sync_start (some k) is_own m text =
    if not (is_client k.type)
    then refused not_connected
    else if is_own
    then refused own_buffer
    else elim k.send [
      | none ↦ overrun
      | some d ↦
          let id = (m.actionid + 1) % u32_mod in
          elim (write_action d text id) [
            | none ↦ overrun
            | some d' ↦ waiting (record {
              manage = record m {
                p_resp = some new_request;
                resp_waitcount = (m.resp_waitcount + 1) % u32_mod;
                actionid = id;
              };
              buffer = d';
              sent = take d'.req_len d'.s;
            })
          ]
    ]

-- What `pthread_cond_timedwait` returns.
pub data Wake : Type 0 where
  signalled etimedout : Wake
  wake_error : (errno : ℕ) → Wake

-- `ami_sync` behind its wait, with the response that `ami_event` has filled.
unfoldable pub sync_end : AmiManage → AmiResponse → Wake → AmiManage × SyncResult
sync_end m r wake =
    let m' = record m { resp_waitcount = (m.resp_waitcount + (u32_mod - 1)) % u32_mod } in
    elim wake [
      | signalled ↦ (m', answered r)
      | etimedout ↦ (m', timed_out)
      | wake_error errno ↦ (m', wait_failed errno)
    ]

-- `ami_async`: nothing is waited for.
unfoldable pub ami_async :
    Option (Socket AmiManage) → (is_own : Bool) → AmiManage → Bytes → SyncStart
unfolding sync_start write_action
ami_async k is_own m text = elim (sync_start k is_own m text) [
  | waiting s ↦ waiting (record s {
    manage = record s.manage { p_resp = m.p_resp; resp_waitcount = m.resp_waitcount };
  })
  | refused r ↦ refused r
  | overrun ↦ overrun
]

-- `process_events`: the first handler registered for the event's name, by its address.
unfoldable pub process_events : List (Bytes × ℕ) → List (Bytes × Bytes) → Option ℕ
unfolding equal first_value
process_events [] events = none
process_events ((name, func) ∷ more) events =
    let rest = process_events more events in
    if equal name (first_value events) then some func else rest

-- `my_disconnected`: `ami_socket` is forgotten when its object goes.
unfoldable pub my_disconnected : Option ℕ → (is_ami_base : Bool) → Option ℕ → Option ℕ
my_disconnected none is_ami_base ami_socket = ami_socket
my_disconnected (some a) is_ami_base none = none
my_disconnected (some a) is_ami_base (some b) = if a == b && is_ami_base then none else some b
