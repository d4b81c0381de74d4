-- ===== src/Echo/Farewell.antt =====
-- echoserver/echoserver.cpp, `main`: the farewell that it leaves in every connection's send buffer, in
-- each of its last nine seconds. The entries of the map are an argument, in the order in which it is
-- gone through; `mod_ok` is what `epoll_ctl` says for each descriptor, to which nobody listens.
pub mod Laws
use tst.Common.{
  refl, sym, ap, subst, ◌∙◌, false, inl, inr, zero, suc, ◌+◌, ◌-◌, ◌*◌, ◌/◌, ◌%◌, ◌^◌, ◌≤◌, ◌<◌,
  ◌≡◌, ◌≢◌, ◌↔◌, ◌⊎◌, ◌==◌, ◌&&◌, ◌||◌, write_at, length, codes, ltb, Option, Bytes, List, ℕ, Bool,
  none, some, true, [], ◌∷◌, ◌++◌, if◌then◌else◌,
}
use tst.Pool.State.{Pool, update}
use tst.Pool.Connections.{need_send}
use tst.Http.Response.{decimal}

unfoldable pub farewell : ℕ → Bytes
unfolding decimal
farewell i = codes "--- good bye. about " ++ (decimal 10 i ++ codes " seconds...\n")

module _ {U G : Type 0} where
  -- One connection: its object's buffer is written, also where a worker has a job for it, and the
  -- pool is asked to send. `none` is a fault.
  unfoldable pub leave_farewell : (ℕ → Bool) → Pool U G → ℕ → Bytes → Option (Pool U G)
  unfolding need_send
  leave_farewell mod_ok p a text = elim (p.heap a) [
    | none ↦ none
    | some k ↦ elim k.send [
      | none ↦ none
      | some out ↦
          if ltb (length text) (length out.s)
          then (let k' = record k {
            send = some (record out {
              req_len = length text;
              com_len = 0;
              s = write_at out.s 0 (text ++ 0 ∷ []);
            });
          } in
              some (need_send (record p { heap = update p.heap a (some k') }) k.sd (mod_ok k.sd)).0)
          else none
    ]
  ]

  unfoldable pub say_farewell : (ℕ → Bool) → Pool U G → List (ℕ × ℕ) → ℕ → Option (Pool U G)
  unfolding leave_farewell farewell
  say_farewell mod_ok p [] i = some p
  say_farewell mod_ok p ((sd, a) ∷ entries) i = elim (leave_farewell mod_ok p a (farewell i)) [
    | none ↦ none
    | some q ↦ say_farewell mod_ok q entries i
  ]
