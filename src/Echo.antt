-- ===== src/Echo.antt =====
-- echoserver/echoserver.cpp: `echo` and `first`, the functions that the echo server
-- gives the pool. The kernel's answers are arguments.
pub mod Laws
pub mod Farewell
use tst.Common.{
  drop, write_at, set, ltb, ℕ, length, codes, Option, List, Bytes, Bool, refl, sym, ap, subst, ◌∙◌,
  none, some, true, false, [], ◌∷◌, inl, inr, zero, suc, ◌+◌, ◌-◌, ◌*◌, ◌/◌, ◌%◌, ◌^◌, ◌≤◌, ◌<◌,
  ◌≡◌, ◌≢◌, ◌↔◌, ◌⊎◌, ◌++◌, ◌==◌, if◌then◌else◌, ◌&&◌, ◌||◌,
}
use tst.Pool.Types.{
  Socket, SocketType, TstData, Stat, tst_suspend, tst_run, tst_send, tst_disconnect, u32_mod,
  reset_data, sock_client,
}
use tst.Http.Query.{c_str}

-- `read` gives the bytes of one call, none for -1; `queue` is what `SIOCOUTQ` gives.
pub record EchoIo : Type 0 where
  pub read : Option Bytes
  pub write : Bytes → Option ℕ
  pub queue : Option ℕ

-- What the function leaves behind: the object, the texts given to `write`, and its result.
pub record Echoed (U : Type 0) : Type 0 where
  pub socket : Socket U
  pub written : List Bytes
  pub next : Stat

-- `com_len += read(…)`
abbrev pub received : TstData → Option Bytes → TstData
received d none = record d { com_len = (d.com_len + (u32_mod - 1)) % u32_mod }
received d (some chunk) = record d {
  com_len = (d.com_len + length chunk) % u32_mod;
  s = write_at d.s d.com_len chunk;
}

-- `s[com_len] = 0`; none is a write behind the memory.
abbrev pub terminated : TstData → Option TstData
terminated d =
    if ltb d.com_len (length d.s) then some (record d { s = set d.s d.com_len 0 }) else none

abbrev pub minus_one_or : Option ℕ → ℕ
minus_one_or none = u32_mod - 1
minus_one_or (some n) = n

abbrev is_run : Stat → Bool
is_run tst_run = true
is_run _ = false

module _ {U : Type 0} where
  -- The text is written into the send buffer and sent.
  unfoldable pub send_back : Socket U → TstData → TstData → Bytes → EchoIo → Option (Echoed U)
  unfolding reset_data
  send_back k d out text io =
      if ltb (length text) (length out.s)
      then some (record {
        socket = record k {
          recv = some (reset_data d);
          send = some (record out {
            req_len = length text;
            com_len = minus_one_or (io.write text);
            s = write_at out.s 0 (text ++ 0 ∷ []);
          });
        };
        written = text ∷ [];
        next = tst_suspend;
      })
      else none

  -- EPOLLIN, with a receive buffer: what the room is too small for is read and dropped.
  unfoldable pub echo_input : Socket U → TstData → EchoIo → Option (Echoed U)
  unfolding send_back c_str reset_data
  echo_input k d io =
      if ltb ((d.s_len + (u32_mod - d.com_len)) % u32_mod) d.checked_len
      then some (record {
        socket = record k { recv = some (reset_data (record d { checked_len = u32_mod - 1 })) };
        written = [];
        next = tst_suspend;
      })
      else elim (terminated (received d io.read)) [
        | none ↦ none
        | some d' ↦ elim k.send [
          | none ↦ none
          | some out ↦ send_back k d' out (c_str (drop d.com_len d'.s)) io
        ]
      ]

  -- EPOLLOUT: whether what was sent before has left.
  unfoldable pub echo_output : Socket U → EchoIo → Option (Echoed U)
  unfolding reset_data
  echo_output k io = elim k.send [
    | none ↦ none
    | some out ↦ elim io.queue [
      | none ↦ some (record { socket = k; written = []; next = tst_disconnect })
      | some zero ↦ some (record {
        socket = record k { send = some (reset_data (record out { checked_len = 0 })) };
        written = [];
        next = tst_suspend;
      })
      | some (suc n) ↦ some (record {
        socket = record k { send = some (record out { checked_len = suc n }) };
        written = [];
        next = tst_send;
      })
    ]
  ]

  -- Behind the socket's own function.
  unfoldable pub echo_events : Socket U → EchoIo → Option (Echoed U)
  unfolding echo_input echo_output
  echo_events k io =
      if k.events.epollin
      then elim k.recv [
        | none ↦ some (record { socket = k; written = []; next = tst_suspend })
        | some d ↦ echo_input k d io
      ]
      else if k.events.epollout
      then echo_output k io
      else some (record { socket = k; written = []; next = tst_suspend })

  -- `func` is the socket's own function, where one is set.
  unfoldable pub echo : Option (Socket U → Socket U × Stat) → Socket U → EchoIo → Option (Echoed U)
  unfolding echo_events
  echo none k io = echo_events k io
  echo (some func) k io =
      let (k', next) = func k in
      if is_run next
      then echo_events k' io
      else some (record { socket = k'; written = []; next = next })

  -- The welcome, left in the send buffer for a worker to send.
  unfoldable pub first : Socket U → Option (Socket U × Stat)
  first k = elim k.send [
    | none ↦ none
    | some out ↦
        let text = codes "--- Wellcome to echo test server...\n" in
        if ltb (length text) (length out.s)
        then some (
          record k {
            send = some (record out {
              req_len = length text;
              com_len = 0;
              s = write_at out.s 0 (text ++ 0 ∷ []);
            });
          },
          tst_send,
        )
        else none
  ]
