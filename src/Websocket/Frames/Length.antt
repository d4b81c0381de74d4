-- ===== src/Websocket/Frames/Length.antt =====
-- The length in the header that `ws_writetext` writes, as the program's own handler, and any other
-- reader of RFC 6455, takes it: the bytes of the extended length with the highest first.
use tst.Common.{
  drop, take, ltb, get_or, arith, Bytes, ℕ, refl, ◌∷◌, ◌%◌, ◌^◌, ◌≤◌, ◌<◌, ◌≡◌, ◌==◌, if◌then◌else◌,
}
use tst.Websocket.Frames.{text_header, big_endian, little_endian, opcode_text, fin}

-- The length that a header gives: 7 bits, or the two or eight bytes behind them.
unfoldable pub header_length : Bytes → ℕ
unfolding big_endian
header_length header =
    let short = get_or header 1 0 % 128 in
    if ltb short 126
    then short
    else if short == 126
    then big_endian 0 (take 2 (drop 2 header))
    else big_endian 0 (take 8 (drop 2 header))

-- The header for a text of up to 126 bytes tells the length of the text.
pub header_length-text_header : (len : ℕ) → len ≤ 126 → header_length (text_header len) ≡ len
unfolding header_length text_header big_endian
header_length-text_header len h = ground arith

text_header_long :
    (len : ℕ) → 127 ≤ len → text_header len ≡ fin opcode_text ∷ 127 ∷ little_endian 8 len
unfolding text_header
text_header_long len h = ground arith

header_length_long :
    (first : ℕ) (bytes : Bytes) → header_length (first ∷ 127 ∷ bytes) ≡ big_endian 0 (take 8 bytes)
unfolding header_length
header_length_long first bytes = refl

-- The low half of the number is not 0, and it stands in the high half of what is read.
reversed_bound : (n : ℕ) → 1 ≤ n → n < 2 ^ 32 → 2 ^ 32 ≤ big_endian 0 (take 8 (little_endian 8 n))
unfolding big_endian little_endian
reversed_bound n h k = omega arith

-- The header for a text of 127 bytes or more, below 4 GB, tells another length, of 4 GB at least:
-- the eight bytes stand in the order of a little-endian host.
pub text_header_reversed :
    (len : ℕ) → 127 ≤ len → len < 2 ^ 32 → 2 ^ 32 ≤ header_length (text_header len)
text_header_reversed len h k =
    rw (text_header_long len h, header_length_long (fin opcode_text) (little_endian 8 len))
      (reversed_bound len (omega arith) k)
