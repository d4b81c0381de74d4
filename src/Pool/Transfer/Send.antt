-- ===== src/Pool/Transfer/Send.antt =====
-- What `auto_send` guarantees, for one event and over many.
use tst.Common.{
  take-append-drop, drop-drop, append_assoc, take-length_append, length-take, drop_append_le,
  length-append, length-drop, drop_append_add, refl, sym, ap, ◌∙◌, ℕ, ◌+◌, ◌-◌, ◌≤◌, ◌<◌, ◌≡◌, ◌↔◌,
  Option, none, some, Bytes, [], ◌++◌, length, take, drop, arith,
}
use tst.Pool.Types.{TstData, tst_run, tst_send, u32_mod}
use tst.Pool.Transfer.{auto_send}

-- What is still to be written: the argument that `auto_send` passes to `write`.
abbrev pub unsent : TstData → Bytes
unsent d = take (d.req_len - d.com_len) (drop (d.req_pos + d.com_len) d.s)

-- From `d` the events so far have left the buffer `last`, and `out` has gone to the socket.
pub data Sent (d : TstData) : TstData → Bytes → Type 0 where
  start : Sent d d []
  event :
      {last : TstData} {out : Bytes} (write : Bytes → Option ℕ) (n : ℕ)
      → Sent d last out
      → last.com_len < last.req_len
      → write (unsent last) ≡ some n
      → n ≤ length (unsent last)
      → Sent d (auto_send last write).0 (out ++ take n (unsent last))

-- The buffer is that of `d` but for the count, and `out` is the front of the message.
pub record Progress (d last : TstData) (msg out : Bytes) : Type 0 where
  pub memory : last.s ≡ d.s
  pub same_len : last.req_len ≡ d.req_len
  pub same_pos : last.req_pos ≡ d.req_pos
  pub count : last.com_len ≡ length out
  pub room : length out ≤ length msg
  pub front : out ++ drop (length out) msg ≡ msg

send-step :
    (d : TstData) (write : Bytes → Option ℕ) (n : ℕ)
    → d.com_len < d.req_len
    → d.req_len < u32_mod
    → write (unsent d) ≡ some n
    → n ≤ d.req_len - d.com_len
    → let (d', next) = auto_send d write in
      (d'.com_len ≡ d.com_len + n)
      × (d'.s ≡ d.s)
      × (d'.req_len ≡ d.req_len)
      × (d'.req_pos ≡ d.req_pos)
unfolding auto_send
send-step d write n h small e fits = ground arith

-- The user's function is called next exactly when all of the request is written; otherwise the
-- worker asks for another EPOLLOUT.
send-step_next :
    (d : TstData) (write : Bytes → Option ℕ) (n : ℕ)
    → d.com_len < d.req_len
    → d.req_len < u32_mod
    → write (unsent d) ≡ some n
    → n ≤ d.req_len - d.com_len
    → (((auto_send d write).1 ≡ tst_run) ↔ (d.com_len + n ≡ d.req_len))
      × (((auto_send d write).1 ≡ tst_send) ↔ (d.com_len + n < d.req_len))
unfolding auto_send
send-step_next d write n h small e fits =
    ((ground arith, ground arith), (ground arith, ground arith))

unsent-region :
    (d : TstData) (pre msg post : Bytes)
    → d.s ≡ pre ++ (msg ++ post)
    → length pre ≡ d.req_pos
    → length msg ≡ d.req_len
    → d.com_len ≤ d.req_len
    → unsent d ≡ drop d.com_len msg
unsent-region d pre msg post es ep em h =
    ap (λ (b : Bytes). take (d.req_len - d.com_len) (drop (d.req_pos + d.com_len) b)) es
    ∙ ap (take (d.req_len - d.com_len)) (
        drop_append_add (d.req_pos + d.com_len) d.com_len pre (msg ++ post) (omega arith)
        ∙ drop_append_le d.com_len msg post (omega arith))
    ∙ ap (λ (k : ℕ). take k (drop d.com_len msg ++ post))
        (let e : d.req_len - d.com_len ≡ length (drop d.com_len msg) =
            omega (arith, length-drop d.com_len msg) in
          e)
    ∙ take-length_append (drop d.com_len msg) post

-- From a request with nothing sent, below 2 ^ 32 bytes and within the memory, over any number of
-- writes that succeed: what has gone out is the front of the message, in order and with no byte
-- twice, the buffer is as it was, and `com_len` counts the bytes gone out.
pub Sent-Progress :
    (d : TstData) (pre msg post : Bytes)
    → d.s ≡ pre ++ (msg ++ post)
    → length pre ≡ d.req_pos
    → length msg ≡ d.req_len
    → d.req_len < u32_mod
    → d.com_len ≡ 0
    → {last : TstData} {out : Bytes} → Sent d last out
    → Progress d last msg out
Sent-Progress d pre msg post es ep em small ec start = record {
  memory = refl;
  same_len = refl;
  same_pos = refl;
  count = ec;
  room = omega arith;
  front = refl;
}
Sent-Progress d pre msg post es ep em small ec (event {last} {out} write n s h e fits) =
    let ih = Sent-Progress d pre msg post es ep em small ec s in
    let left : unsent last ≡ drop (length out) msg =
      unsent-region last pre msg post (ih.memory ∙ es) (ep ∙ sym ih.same_pos) (em ∙ sym ih.same_len)
        (omega arith)
      ∙ ap (λ (k : ℕ). drop k msg) ih.count in
    let size : length (unsent last) ≡ length msg - length out =
      ap length left ∙ length-drop (length out) msg in
    let now =
      send-step last write n h (omega (arith, ih.same_len)) e
        (omega (arith, size, ih.same_len, ih.count, em)) in
    let more : length (out ++ take n (unsent last)) ≡ length out + n =
      omega (arith, length-append out (take n (unsent last)), length-take n (unsent last)) in
    record {
      memory = now.1 ∙ ih.memory;
      same_len = now.2 ∙ ih.same_len;
      same_pos = now.3 ∙ ih.same_pos;
      count = omega (arith, now.0, more, ih.count);
      room = omega (arith, more, size, ih.room);
      front =
          append_assoc out (take n (unsent last)) _
          ∙ ap (◌++◌ out) (
              ap (λ (k : ℕ). take n (unsent last) ++ drop k msg) more
              ∙ ap (λ (b : Bytes). take n b ++ drop (length out + n) msg) left
              ∙ ap (◌++◌ (take n (drop (length out) msg)))
                  (sym (drop-drop (length out) n (length out + n) msg refl))
              ∙ take-append-drop n (drop (length out) msg))
          ∙ ih.front;
    }

-- A failed `write` when nothing has gone out is taken for a completed one.
send_failed :
    (d : TstData) (write : Bytes → Option ℕ)
    → d.com_len ≡ 0
    → 0 < d.req_len
    → d.req_len < u32_mod
    → write (unsent d) ≡ none
    → let (d', next) = auto_send d write in (next ≡ tst_run) × (d'.com_len ≡ u32_mod - 1)
unfolding auto_send
send_failed d write c pos small e = ground arith
