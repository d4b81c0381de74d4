-- ===== src/Ami/Actions/Laws.antt =====
-- What an action sends, who is woken by the answer, and what a time-out leaves behind.
use tst.Common.{
  All, arith, refl, ap, ◌∙◌, none, some, true, false, [], ◌∷◌, ◌+◌, ◌-◌, ◌%◌, ◌≤◌, ◌<◌, ◌≡◌, ◌++◌,
}
use tst.Pool.Types.{Socket, TstData, u32_mod, sock_client}
use tst.Ami.Events.{get_amivalue}
use tst.Ami.Events.Laws.{write_records, IsRecord}
use tst.Http.Query.Parsing.{Lacks}
use tst.Ami.Event.{AmiManage, AmiResponse, action_requst, starts, atoi, ami_event}
use tst.Ami.Event.Laws.{ami_event_answers}
use tst.Ami.Actions.{
  codes, List, take, length, ℕ, Bytes, answered, timed_out, action_tail, Sent, waiting, sync_start,
  signalled, etimedout, sync_end, new_request,
}
use tst.Ami.Actions.Writing.{write_action_fits, action_tail_clean, response_for}

module _ (k : Socket AmiManage) (d : TstData) (m : AmiManage) (text : Bytes) where
  -- The number that the next action gets.
  abbrev pub next_id : ℕ
  next_id = (m.actionid + 1) % u32_mod

  -- An action that the send buffer has room for, with its number, and that has no zero byte, can be
  -- sent on a connection to the server.
  pub record CanSend : Type 0 where
    pub connected : k.type ≡ sock_client
    pub buffer : k.send ≡ some d
    pub short : length text ≤ d.s_len - 2
    pub fits : length text + length (action_tail ((m.actionid + 1) % u32_mod)) + 1 ≤ length d.s
    pub clean : Lacks 0 text

  sync_start-waiting :
      CanSend
      → (s : Sent) × (sync_start (some k) false m text ≡ waiting s)
        × (s.sent ≡ text ++ action_tail next_id)
        × (s.manage ≡ record m {
          p_resp = some new_request;
          resp_waitcount = (m.resp_waitcount + 1) % u32_mod;
          actionid = next_id;
        })
  unfolding sync_start
  sync_start-waiting c =
      let (d', e, f) =
        write_action_fits d text next_id c.short c.fits c.clean (action_tail_clean next_id) in
      (
        record {
          manage = record m {
            p_resp = some new_request;
            resp_waitcount = (m.resp_waitcount + 1) % u32_mod;
            actionid = next_id;
          };
          buffer = d';
          sent = take d'.req_len d'.s;
        },
        rw (c.connected, c.buffer, sync_start) (rw (e, sync_start) refl),
        f,
        refl,
      )

  -- Let `ami_sync` send an action that can be sent, with fewer than 2 ^ 32 - 1 callers counted.
  -- The server is sent the action's text with the next number behind it, as an int. Let its answer
  -- be at most 100 records of the form that the parser reads back, beginning with `Response:`,
  -- ended by an empty line and with that number: then the caller alone is woken, and `ami_sync`
  -- returns with these records, with success exactly where the first value starts so; nobody waits
  -- then, and as many callers are counted as before.
  pub sync_start-sync_end :
      (names : List Bytes) (kvs : List (Bytes × Bytes)) (junk : Bytes)
      → CanSend
      → m.resp_waitcount + 1 < u32_mod
      → length kvs ≤ 100
      → All IsRecord kvs
      → starts (write_records kvs (b'\r' ∷ b'\n' ∷ 0 ∷ junk)) (codes "Response:") ≡ true
      → atoi (get_amivalue kvs (codes "ActionID")) ≡ next_id
      → (s : Sent) × (sync_start (some k) false m text ≡ waiting s)
        × (s.sent ≡ text ++ action_tail next_id)
        × (let m1 = ami_event names s.manage (write_records kvs (b'\r' ∷ b'\n' ∷ 0 ∷ junk)) in
            let answer = response_for new_request kvs in
            (m1.woken ≡ m.woken ++ answer ∷ [])
            × (m1.p_resp ≡ none)
            × ((sync_end m1 answer signalled).1 ≡ answered answer)
            × ((sync_end m1 answer signalled).0.resp_waitcount ≡ m.resp_waitcount))
  unfolding sync_end
  sync_start-sync_end names kvs junk c few short records front same =
      let (s, e, f, g) = sync_start-waiting c in
      let m0 = record m {
        p_resp = some new_request;
        resp_waitcount = (m.resp_waitcount + 1) % u32_mod;
        actionid = next_id;
      } in
      let h =
        ap (λ x. ami_event names x (write_records kvs (b'\r' ∷ b'\n' ∷ 0 ∷ junk))) g
        ∙ ami_event_answers names m0 new_request kvs junk refl refl (omega arith) short records
            front same in
      (
        s,
        e,
        f,
        (
          ap (λ (x : AmiManage). x.woken) h,
          ap (λ (x : AmiManage). x.p_resp) h,
          refl,
          ap (λ (x : AmiManage). (x.resp_waitcount + (u32_mod - 1)) % u32_mod) h
              ∙ omega (arith, few),
        ),
      )

-- Let the wait of a counted caller with the request `r` time out. The manager still holds `r`:
-- once another caller is counted, before it has set a request of its own, a late answer to the
-- last number, of at most 100 records of the form that the parser reads back, beginning with
-- `Response:` and ended by an empty line, is written into `r`, and signalled.
pub sync_end-late_answer :
    (names : List Bytes) (m : AmiManage) (r : AmiResponse) (kvs : List (Bytes × Bytes))
    (junk : Bytes)
    → m.p_resp ≡ some r
    → r.mode ≡ action_requst
    → 0 < m.resp_waitcount
    → m.resp_waitcount < u32_mod
    → length kvs ≤ 100
    → All IsRecord kvs
    → starts (write_records kvs (b'\r' ∷ b'\n' ∷ 0 ∷ junk)) (codes "Response:") ≡ true
    → atoi (get_amivalue kvs (codes "ActionID")) ≡ m.actionid
    → let (m1, result) = sync_end m r etimedout in
      let m2 = record m1 { resp_waitcount = (m1.resp_waitcount + 1) % u32_mod } in
      (result ≡ timed_out)
      × ((ami_event names m2 (write_records kvs (b'\r' ∷ b'\n' ∷ 0 ∷ junk))).woken
          ≡ m.woken ++ response_for r kvs ∷ [])
unfolding sync_end
sync_end-late_answer names m r kvs junk held asked some_wait few short records front same =
    let m1 = (sync_end m r etimedout).0 in
    let m2 = record m1 { resp_waitcount = (m1.resp_waitcount + 1) % u32_mod } in
    (
      refl,
      ap (λ (x : AmiManage). x.woken)
          (ami_event_answers names m2 r kvs junk held asked (omega (arith, some_wait, few)) short
            records front same),
    )
