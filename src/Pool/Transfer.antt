-- ===== src/Pool/Transfer.antt =====
-- tst/tst.cpp, `tst_work`: what a worker does by itself before it calls the user's function. While
-- `req_len` is set it receives, or sends, up to that many bytes, over as many events as it takes.
-- `ioctl`, `read` and `write` are arguments: the answer for the count, or `none` for -1.
pub mod Receive
pub mod Send
use tst.Common.{
  ℕ, ◌+◌, ◌-◌, ◌%◌, Bool, Option, none, some, Bytes, length, take, drop, write_at, ltb, leb, ◌==◌,
  if◌then◌else◌,
}
use tst.Pool.Types.{
  TstData, Stat, tst_suspend, tst_run, tst_send, u32_mod, Events, readable, Socket,
}

-- `checked_len`, as the `ioctl` set it, is cut to what is still wanted: the rest is the next message.
unfoldable pub wanted : TstData → ℕ → ℕ
wanted d ready = if ltb (d.req_len - d.com_len) ready then d.req_len - d.com_len else ready

-- `com_len += read(…)`: what -1 adds to a uint32_t is 2 ^ 32 - 1, and nothing is stored.
unfoldable pub store_read : TstData → Option Bytes → TstData
store_read d none = record d { com_len = (d.com_len + (u32_mod - 1)) % u32_mod }
store_read d (some bytes) = record d {
  com_len = (d.com_len + length bytes) % u32_mod;
  s = write_at d.s (d.req_pos + d.com_len) bytes;
}

-- The buffer after the read, and the next state: `tst_run` once the request is complete.
unfoldable pub finish_read : TstData → TstData × Stat
finish_read d =
    if leb d.req_len d.com_len then (record d { checked_len = 0 }, tst_run) else (d, tst_suspend)

unfoldable pub receive_more : TstData → Option ℕ → (ℕ → Option Bytes) → TstData × Stat
unfolding wanted store_read finish_read
receive_more d none read = (d, tst_suspend)
receive_more d (some ready) read =
    let count = wanted d ready in
    finish_read (store_read (record d { checked_len = count }) (read count))

-- The receiving half, on a buffer.
unfoldable pub auto_receive : TstData → Option ℕ → (ℕ → Option Bytes) → TstData × Stat
unfolding receive_more
auto_receive d ioctl read =
    if d.req_len == 0
    then (d, tst_run)
    else if leb d.req_len d.com_len
    then (d, tst_run)
    else receive_more d ioctl read

-- What a `write` adds to `com_len`.
abbrev pub written : Option ℕ → ℕ
written none = u32_mod - 1
written (some n) = n

-- `com_len += write(…)`, and whether all is written.
unfoldable pub finish_write : TstData → Option ℕ → TstData × Stat
finish_write d answer =
    let total = (d.com_len + written answer) % u32_mod in
    (record d { com_len = total }, (if ltb total d.req_len then tst_send else tst_run))

-- The sending half. `write` is given the bytes that are not written yet.
unfoldable pub auto_send : TstData → (Bytes → Option ℕ) → TstData × Stat
unfolding finish_write
auto_send d write =
    if d.req_len == 0
    then (d, tst_run)
    else if leb d.req_len d.com_len
    then (d, tst_run)
    else finish_write d (write (take (d.req_len - d.com_len) (drop (d.req_pos + d.com_len) d.s)))
