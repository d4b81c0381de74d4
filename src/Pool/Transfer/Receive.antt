-- ===== src/Pool/Transfer/Receive.antt =====
-- What `auto_receive` guarantees, for one event and over many.
use tst.Common.{
  ◌-◌, none, refl, length-append, drop-drop, write_at_region, ap, ◌∙◌, ◌↔◌, length-drop, ℕ, ◌+◌,
  ◌≤◌, ◌<◌, ◌≡◌, Option, some, Bytes, [], ◌++◌, length, drop, arith, write_at,
}
use tst.Pool.Types.{TstData, tst_run, u32_mod}
use tst.Pool.Transfer.{tst_suspend, wanted, auto_receive}

-- `read` gives no more bytes than it is asked for.
abbrev pub Answers : (ℕ → Option Bytes) → ℕ → Bytes → Type 0
Answers read count chunk = (read count ≡ some chunk) × (length chunk ≤ count)

-- From `d` the events so far have left the buffer `last`, and the reads returned `got` in all.
pub data Received (d : TstData) : TstData → Bytes → Type 0 where
  start : Received d d []
  event :
      {last : TstData} {got : Bytes} (ready : ℕ) (read : ℕ → Option Bytes) (chunk : Bytes)
      → Received d last got
      → last.com_len < last.req_len
      → Answers read (wanted last ready) chunk
      → Received d (auto_receive last (some ready) read).0 (got ++ chunk)

-- The buffer of `d` with its request filled by `got`: `pre` and `post` lie outside the request.
pub record Holds (d last : TstData) (pre old post got : Bytes) : Type 0 where
  pub memory : last.s ≡ pre ++ (got ++ (drop (length got) old ++ post))
  pub count : last.com_len ≡ length got
  pub room : length got ≤ length old
  pub same_len : last.req_len ≡ d.req_len
  pub same_pos : last.req_pos ≡ d.req_pos

pub receive-step :
    (d : TstData) (ready : ℕ) (read : ℕ → Option Bytes) (chunk : Bytes)
    → d.com_len < d.req_len
    → d.req_len < u32_mod
    → Answers read (wanted d ready) chunk
    → let (d', next) = auto_receive d (some ready) read in
      (d'.s ≡ write_at d.s (d.req_pos + d.com_len) chunk)
      × (d'.com_len ≡ d.com_len + length chunk)
      × (d.com_len + length chunk ≤ d.req_len)
      × (d'.req_len ≡ d.req_len)
      × (d'.req_pos ≡ d.req_pos)
unfolding auto_receive
receive-step d ready read chunk h small (e, fits) = ground arith

-- After a read that succeeds, an incomplete request of less than 2 ^ 32 bytes is handed to the
-- user's function exactly when its last byte is in the buffer.
pub receive-step_next :
    (d : TstData) (ready : ℕ) (read : ℕ → Option Bytes) (chunk : Bytes)
    → d.com_len < d.req_len
    → d.req_len < u32_mod
    → Answers read (wanted d ready) chunk
    → ((auto_receive d (some ready) read).1 ≡ tst_run) ↔ (d.com_len + length chunk ≡ d.req_len)
unfolding auto_receive
receive-step_next d ready read chunk h small (e, fits) = (ground arith, ground arith)

pub receive-step_more :
    (d : TstData) (ready : ℕ) (read : ℕ → Option Bytes) (chunk : Bytes)
    → d.req_len < u32_mod
    → Answers read (wanted d ready) chunk
    → d.com_len + length chunk < d.req_len
    → (auto_receive d (some ready) read).1 ≡ tst_suspend
unfolding auto_receive
receive-step_more d ready read chunk small (e, fits) h = ground arith

-- From a request with nothing received, below 2 ^ 32 bytes and within the memory, over any number
-- of reads that succeed: the buffer holds what they returned, in order, at the place asked for,
-- every byte outside the request is as it was, and `com_len` counts the bytes.
pub Received-Holds :
    (d : TstData) (pre old post : Bytes)
    → d.s ≡ pre ++ (old ++ post)
    → length pre ≡ d.req_pos
    → length old ≡ d.req_len
    → d.req_len < u32_mod
    → d.com_len ≡ 0
    → {last : TstData} {got : Bytes} → Received d last got
    → Holds d last pre old post got
Received-Holds d pre old post es ep eo small ec start = record {
  memory = es;
  count = ec;
  room = omega arith;
  same_len = refl;
  same_pos = refl;
}
Received-Holds d pre old post es ep eo small ec (event {last} {got} ready read chunk r h a) =
    let ih = Received-Holds d pre old post es ep eo small ec r in
    let now = receive-step last ready read chunk h (omega (arith, ih.same_len)) a in
    let room : length chunk ≤ length (drop (length got) old) =
      omega (arith, length-drop (length got) old, ih.same_len, ih.count, now.2, eo) in
    record {
      memory =
          now.0
          ∙ ap (λ (b : Bytes). write_at b (last.req_pos + last.com_len) chunk) ih.memory
          ∙ write_at_region _ pre got _ post chunk (omega (arith, ih.same_pos, ih.count, ep)) room
          ∙ ap (λ (b : Bytes). pre ++ ((got ++ chunk) ++ (b ++ post)))
              (drop-drop (length got) (length chunk) _ old (length-append got chunk));
      count = now.1 ∙ omega (arith, ih.count, length-append got chunk);
      room = omega (arith, length-append got chunk, length-drop (length got) old, room, ih.room);
      same_len = now.3 ∙ ih.same_len;
      same_pos = now.4 ∙ ih.same_pos;
    }

-- A failed `read` when nothing of a request has arrived is taken for its completion: the worker
-- goes on to the user's function with a count of 2 ^ 32 - 1 bytes, and the buffer holds none of
-- them.
pub receive_failed :
    (d : TstData) (ready : ℕ) (read : ℕ → Option Bytes)
    → d.com_len ≡ 0
    → 0 < d.req_len
    → d.req_len < u32_mod
    → read (wanted d ready) ≡ none
    → let (d', next) = auto_receive d (some ready) read in
      (next ≡ tst_run) × (d'.com_len ≡ u32_mod - 1) × (d'.s ≡ d.s)
unfolding auto_receive
receive_failed d ready read c pos small e = ground arith

-- Where the `ioctl` fails, the buffer and the request stay as they are, and the job ends there.
receive_unknown :
    (d : TstData) (read : ℕ → Option Bytes)
    → d.com_len < d.req_len
    → auto_receive d none read ≡ (d, tst_suspend)
unfolding auto_receive
receive_unknown d read h = ground arith
