-- ===== src/Websocket/Receive.antt =====
-- amiproc/websocket.cpp, the parts of `websocket` that read a frame. The
-- answers of `read` are an argument, in order, `none` for -1; of one that holds more than was asked
-- for, that much is taken. `realloc` gives what the larger memory holds, or `none`.
use tst.Common.{
  write_at, length, drop, List, take, ltb, not, get_or, Option, bit_and, Bool, Bytes, ℕ, none, some,
  true, false, [], ◌∷◌, ◌+◌, ◌-◌, ◌%◌, ◌++◌, ◌==◌, if◌then◌else◌, ◌&&◌,
}
use tst.Pool.Types.{TstData, u32_mod, reset_data}
use tst.Http.Types.{WsInfo}
use tst.Websocket.Frames.{
  big_endian, unmask, opcode_text, opcode_binary, opcode_close, opcode_ping, opcode_pong,
}

-- `prdata->com_len += read(sd, prdata->s + prdata->com_len, n)`, and the answers that are left.
unfoldable pub read_on : ℕ → TstData × List (Option Bytes) → TstData × List (Option Bytes)
read_on n (d, []) = (record d { com_len = (d.com_len + (u32_mod - 1)) % u32_mod }, [])
read_on n (d, none ∷ more) = (record d { com_len = (d.com_len + (u32_mod - 1)) % u32_mod }, more)
read_on n (d, some bytes ∷ more) = (
  record d {
    com_len = (d.com_len + length (take n bytes)) % u32_mod;
    s = write_at d.s d.com_len (take n bytes);
  },
  more,
)

unfoldable pub read_if : Bool → ℕ → TstData × List (Option Bytes) → TstData × List (Option Bytes)
unfolding read_on
read_if b n st = if b then read_on n st else st

-- The header, by how the second byte gives the length: where the mask stands, and the length.
unfoldable pub extended :
    Bytes → TstData × List (Option Bytes) → ℕ × ℕ × (TstData × List (Option Bytes))
unfolding read_on big_endian
extended s0 (d, more) =
    let short = bit_and (get_or s0 1 0) 127 in
    let two = read_on 2 (d, more) in
    let eight = read_on 8 (d, more) in
    if ltb short 126
    then (2, short, (d, more))
    else if short == 126
    then (4, big_endian 0 (take 2 (drop 2 two.0.s)), two)
    else (10, big_endian 0 (take 8 (drop 2 eight.0.s)), eight)

-- A first byte, a second byte, and a length and a mask: the fields that the header sets.
unfoldable pub parsed : WsInfo → Bytes → ℕ → Bytes → WsInfo
parsed ws s0 len mask =
    let opcode = bit_and (get_or s0 0 0) 15 in
    let masked = not (bit_and (get_or s0 1 0) 128 == 0) in
    record ws {
      opcode = opcode;
      data_len = len;
      mask = if masked then mask else ws.mask;
      step = 1;
      is_masked = masked;
      is_text = opcode == opcode_text;
      is_bin = opcode == opcode_binary;
      is_close = opcode == opcode_close;
      is_ping = opcode == opcode_ping;
      is_pong = opcode == opcode_pong;
    }

abbrev pub max_message : ℕ
max_message = 10485760

-- `step` 0, up to the masking key. `none` stands for a message that is too long: only the 64-bit form
-- is tested, before the mask is copied.
unfoldable pub read_header :
    WsInfo → TstData → List (Option Bytes) → Option (WsInfo × TstData × List (Option Bytes))
unfolding read_on read_if extended parsed
read_header ws d answers =
    let first = read_on 2 (record d { com_len = 0 }, answers) in
    let s0 = first.0.s in
    let masked = not (bit_and (get_or s0 1 0) 128 == 0) in
    let ext = extended s0 first in
    let full = read_if masked 4 ext.2 in
    if ext.0 == 10 && ltb max_message ext.1
    then none
    else some (parsed ws s0 ext.1 (take 4 (drop ext.0 full.0.s)), full.0, full.1)

-- A message that is longer than `s_len` makes the buffer grow.
unfoldable pub grow : (ℕ → Option Bytes) → TstData → ℕ → Option TstData
grow realloc d len =
    if ltb d.s_len len
    then elim (realloc len) [
      | none ↦ none
      | some memory ↦ some (record d { s_len = len; s = memory })
    ]
    else some d

-- The data: what can be read now, and the request for the rest where that is not all of it.
unfoldable pub read_data : TstData → ℕ → List (Option Bytes) → TstData × Bool
unfolding read_on reset_data
read_data d len answers =
    let got = (read_on len (reset_data d, answers)).0 in
    if ltb got.com_len len
    then (record got { req_pos = got.com_len; req_len = len - got.com_len; com_len = 0 }, false)
    else (got, true)

unfoldable pub decode : WsInfo → TstData → TstData
unfolding unmask
decode ws d =
    if ws.is_masked
    then record d { s = unmask ws.mask 0 (take ws.data_len d.s) ++ drop ws.data_len d.s }
    else d

-- `WS_INFO::init`: all but the handler.
unfoldable pub init_ws : WsInfo → WsInfo
init_ws ws = record ws {
  opcode = 0;
  data_len = 0;
  mask = 0 ∷ 0 ∷ 0 ∷ 0 ∷ [];
  step = 0;
  is_masked = false;
  is_text = false;
  is_bin = false;
  is_close = false;
  is_ping = false;
  is_pong = false;
}

-- Zeroes throughout, as `calloc` and `bzero` leave it.
unfoldable pub blank_ws : WsInfo
blank_ws = record {
  opcode = 0;
  data_len = 0;
  mask = 0 ∷ 0 ∷ 0 ∷ 0 ∷ [];
  step = 0;
  is_masked = false;
  is_text = false;
  is_bin = false;
  is_close = false;
  is_ping = false;
  is_pong = false;
  websocket_func = 0;
}
