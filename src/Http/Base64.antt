-- ===== src/Http/Base64.antt =====
-- amiproc/http.cpp: `b64reverse`, `base64_encode` and `base64_decode`.
mod Bits
pub mod RoundTrip
use tst.Common.{
  refl, sym, ap, subst, ◌∙◌, none, some, true, false, [], ◌∷◌, inl, inr, zero, suc, ◌+◌, ◌-◌, ◌*◌,
  ◌/◌, ◌%◌, ◌^◌, ◌≤◌, ◌<◌, ◌≡◌, ◌≢◌, ◌↔◌, ◌⊎◌, ◌++◌, ◌==◌, if◌then◌else◌, ◌&&◌, ◌||◌, ℕ, Bool,
  Bytes, Option, length, ltb, leb, get_or, bit_and, bit_or, codes,
}

-- A constant of the program, not a table to compute with: `get_or` reads it by index.
abbrev pub alphabet : Bytes
alphabet = codes "ABCDEFGHIJKLMNOPQRSTUVWXYZabcdefghijklmnopqrstuvwxyz0123456789+/"

unfoldable pub b64 : ℕ → ℕ
b64 i = get_or alphabet i 0

abbrev pub within : ℕ → ℕ → ℕ → Bool
within lo hi c = leb lo c && leb c hi

-- 255 is the normal end, 254 an error.
unfoldable pub b64reverse : ℕ → ℕ
b64reverse letter =
    if within b'A' b'Z' letter
    then letter - b'A'
    else if within b'a' b'z' letter
    then letter - b'a' + 26
    else if within b'0' b'9' letter
    then letter - b'0' + 52
    else if letter == b'+'
    then 62
    else if letter == b'/'
    then 63
    else if letter == b'='
    then 255
    else 254

-- The letters for `a`, `b` and `c`, where those behind the end of the source are 0.
abbrev first_letter : ℕ → ℕ
first_letter a = b64 (a / 4)

abbrev second_letter : ℕ → ℕ → ℕ
second_letter a b = b64 (bit_or (bit_and a 3 * 16) (b / 16))

abbrev third_letter : ℕ → ℕ → ℕ
third_letter b c = b64 (bit_or (bit_and b 15 * 4) (c / 64))

abbrev fourth_letter : ℕ → ℕ
fourth_letter c = b64 (bit_and c 63)

unfoldable pub encode_loop : Bytes → Bytes
encode_loop [] = []
encode_loop (a ∷ []) = first_letter a ∷ second_letter a 0 ∷ []
encode_loop (a ∷ b ∷ []) = first_letter a ∷ second_letter a b ∷ third_letter b 0 ∷ []
encode_loop (a ∷ b ∷ c ∷ rest) =
    first_letter a ∷ second_letter a b ∷ third_letter b c ∷ fourth_letter c ∷ encode_loop rest

-- `while (j % 4 != 0) dst[j++] = '='`; three rounds are the most that it can take.
unfoldable pub pad : ℕ → ℕ → Bytes
pad zero j = []
pad (suc fuel) j = let rest = b'=' ∷ pad fuel (j + 1) in if j % 4 == 0 then [] else rest

-- What stands in `dst` before the terminating 0.
unfoldable pub encoded : Bytes → Bytes
unfolding encode_loop pad
encoded src = let letters = encode_loop src in letters ++ pad 3 (length letters)

-- All that is written to `dst`.
unfoldable pub base64_encode : Bytes → Bytes
unfolding encoded b64
base64_encode src = encoded src ++ 0 ∷ []

-- The bytes of one group of four values, of which the last two may be the end mark.
group_bytes : ℕ → ℕ → ℕ → ℕ → Bytes
group_bytes a b c d =
    ((a * 4 + b / 16) % 256)
    ∷ (if c == 255
        then []
        else ((b * 16 + c / 4) % 256) ∷ (if d == 255 then [] else ((c * 64 + d) % 256) ∷ []))

-- One round at index `i`: `more` is what the rounds behind it give.
decode_group : ℕ → ℕ → ℕ → ℕ → ℕ → Bytes × Option ℕ → Bytes × Option ℕ
unfolding group_bytes
decode_group i x y z t more =
    if leb 254 (b64reverse x)
    then ([], some i)
    else if leb 254 (b64reverse y)
    then ([], some (i + 1))
    else if b64reverse z == 254
    then ([], some (i + 2))
    else if b64reverse t == 254
    then ([], some (i + 3))
    else (group_bytes (b64reverse x) (b64reverse y) (b64reverse z) (b64reverse t) ++ more.0, more.1)

-- From index `i` on. A letter behind the end of the source is read as 0.
unfoldable pub decode_loop : ℕ → Bytes → Bytes × Option ℕ
unfolding decode_group
decode_loop i [] = ([], none)
decode_loop i (x ∷ []) = decode_group i x 0 0 0 ([], none)
decode_loop i (x ∷ y ∷ []) = decode_group i x y 0 0 ([], none)
decode_loop i (x ∷ y ∷ z ∷ []) = decode_group i x y z 0 ([], none)
decode_loop i (x ∷ y ∷ z ∷ t ∷ rest) = decode_group i x y z t (decode_loop (i + 4) rest)

-- The bytes written to `dst`, whose number is `*dst_len`, and the result: `none` for -1.
unfoldable pub base64_decode : Bytes → Bytes × Option ℕ
unfolding decode_loop b64reverse
base64_decode src = decode_loop 0 src
