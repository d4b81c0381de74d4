-- ===== src/Websocket/Frames.antt =====
-- amiproc/websocket.cpp: the four functions that write a frame, and the length and the masking key
-- of a frame that is read. A function that writes returns its `write` calls, in order.
pub mod Length
pub mod Mask
use tst.Common.{
  bit_and, get_or, ltb, bit_or, length, bit_xor, Bytes, Option, ℕ, List, refl, sym, ap, subst, ◌∙◌,
  none, some, true, false, [], ◌∷◌, inl, inr, zero, suc, ◌+◌, ◌-◌, ◌*◌, ◌/◌, ◌%◌, ◌^◌, ◌≤◌, ◌<◌,
  ◌≡◌, ◌≢◌, ◌↔◌, ◌⊎◌, ◌++◌, ◌==◌, if◌then◌else◌, ◌&&◌, ◌||◌,
}

abbrev pub opcode_text : ℕ
opcode_text = 1

abbrev pub opcode_binary : ℕ
opcode_binary = 2

abbrev pub opcode_close : ℕ
opcode_close = 8

abbrev pub opcode_ping : ℕ
opcode_ping = 9

abbrev pub opcode_pong : ℕ
opcode_pong = 10

-- The first byte: the bit FIN and the opcode.
abbrev pub fin : ℕ → ℕ
fin opcode = bit_or 128 (bit_and 15 opcode)

unfoldable pub ws_writeping : List Bytes
ws_writeping = (fin opcode_ping ∷ 0 ∷ []) ∷ []

unfoldable pub ws_writepong : List Bytes
ws_writepong = (fin opcode_pong ∷ 0 ∷ []) ∷ []

-- The status that is passed is not used: 1000 goes out.
unfoldable pub ws_writedisconnect : ℕ → List Bytes
ws_writedisconnect status = (fin opcode_close ∷ 2 ∷ 1000 / 256 ∷ 1000 % 256 ∷ []) ∷ []

-- The bytes of a number, the low byte first, as a little-endian host stores it.
unfoldable pub little_endian : ℕ → ℕ → Bytes
little_endian zero n = []
little_endian (suc w) n = n % 256 ∷ little_endian w (n / 256)

-- The header for a text of this length: `htons` for 126 only, and the 64-bit form as it is stored.
unfoldable pub text_header : ℕ → Bytes
unfolding little_endian
text_header len =
    if ltb len 126
    then fin opcode_text ∷ len ∷ []
    else if len == 126
    then fin opcode_text ∷ 126 ∷ len / 256 % 256 ∷ len % 256 ∷ []
    else fin opcode_text ∷ 127 ∷ little_endian 8 len

unfoldable pub ws_writetext : Option Bytes → List Bytes
unfolding text_header
ws_writetext none = []
ws_writetext (some text) = text_header (length text) ∷ text ∷ []

-- `ntohs`, and `ntohl` of two halves: the first byte is the highest.
unfoldable pub big_endian : ℕ → Bytes → ℕ
big_endian acc [] = acc
big_endian acc (b ∷ bs) = big_endian (acc * 256 + b) bs

-- `data[i] ^= mask[i & 3]`, from the index `i` on.
unfoldable pub unmask : Bytes → ℕ → Bytes → Bytes
unmask mask i [] = []
unmask mask i (b ∷ bs) = bit_xor b (get_or mask (i % 4) 0) ∷ unmask mask (suc i) bs
