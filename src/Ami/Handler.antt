-- ===== src/Ami/Handler.antt =====
-- amiproc/amiproc.cpp: `ami_event` as the pool calls it, for every event.
use tst.Common.{
  arith, ℕ, Bytes, List, Option, Bool, none, some, true, false, ◌≡◌, if◌then◌else◌, ◌||◌,
}
use tst.Pool.Types.{Events, TstData, Stat, tst_suspend, tst_run, tst_disconnect, reset_data}
use tst.Ami.Event.{AmiManage, ami_input}

-- What the handler leaves: the manager, the receive buffer, `ami_socket`, and its result.
record Heard : Type 0 where
  pub manage : AmiManage
  pub recv : Option TstData
  pub ami_socket : Option ℕ
  pub next : Stat

abbrev is_hung_up : Events → Bool
is_hung_up ev = ev.epollhup || ev.epollrdhup || ev.epollerr

-- `is_base` is whether the user data is of the kind `ami_base`, and `answers` is what each `read`
-- gives. Any event but EPOLLIN clears what has come of a message.
unfoldable on_ami_event :
    List Bytes
    → AmiManage
    → Events
    → Option TstData
    → (is_base : Bool) → (ami_socket : Option ℕ) → (answers : List (Option (Option ℕ))) → Heard
unfolding ami_input reset_data
on_ami_event names m ev none is_base ami_socket answers = record {
  manage = m;
  recv = none;
  ami_socket = ami_socket;
  next = tst_disconnect;
}
on_ami_event names m ev (some d) false ami_socket answers = record {
  manage = m;
  recv = some d;
  ami_socket = ami_socket;
  next = tst_run;
}
on_ami_event names m ev (some d) true ami_socket answers =
    if ev.epollin
    then (let (m', d') = ami_input names m d answers in
        record { manage = m'; recv = some d'; ami_socket = ami_socket; next = tst_suspend })
    else if ev.epollout
    then record {
      manage = m;
      recv = some (reset_data d);
      ami_socket = ami_socket;
      next = tst_suspend;
    }
    else record {
      manage = m;
      recv = some (reset_data d);
      ami_socket = if is_hung_up ev then none else ami_socket;
      next = tst_suspend;
    }

-- Any event but EPOLLIN loses the part of a message that has come: nothing of it is kept, and the
-- manager hears nothing of it.
on_ami_event_lost :
    (names : List Bytes) (m : AmiManage) (ev : Events) (d : TstData) (ami_socket : Option ℕ)
    (answers : List (Option (Option ℕ)))
    → ev.epollin ≡ false
    → let r = on_ami_event names m ev (some d) true ami_socket answers in
      (r.manage ≡ m) × (r.recv ≡ some (reset_data d)) × (r.next ≡ tst_suspend)
unfolding on_ami_event
on_ami_event_lost names m ev d ami_socket answers other = ground (arith, other)
