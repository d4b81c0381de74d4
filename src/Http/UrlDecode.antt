-- ===== src/Http/UrlDecode.antt =====
-- amiproc/http.cpp, `urlDecodeRewite`: percent-decoding in place. The write index never passes the
-- read index, and each place is written in its own round only, so a round sees the text from the
-- read index on, and from the write index on the memory as it was.
pub mod Laws
use tst.Common.{
  refl, sym, ap, subst, ◌∙◌, none, some, [], ◌∷◌, inl, inr, zero, suc, ◌+◌, ◌-◌, ◌*◌, ◌/◌, ◌%◌, ◌^◌,
  ◌≤◌, ◌<◌, ◌≡◌, ◌≢◌, ◌↔◌, ◌⊎◌, ◌++◌, ◌==◌, if◌then◌else◌, ℕ, Bool, true, false, ◌&&◌, ◌||◌, Bytes,
  leb, not,
}

abbrev within : ℕ → ℕ → ℕ → Bool
within lo hi c = leb lo c && leb c hi

-- `isxdigit`
unfoldable pub is_xdigit : ℕ → Bool
is_xdigit c = within b'0' b'9' c || within b'a' b'f' c || within b'A' b'F' c

-- The value of a hexadecimal digit, as `strtol` reads it.
unfoldable pub hex_value : ℕ → ℕ
hex_value c =
    if within b'0' b'9' c
    then c - b'0'
    else if within b'a' b'f' c
    then c - b'a' + 10
    else c - b'A' + 10

-- What memory holds at the write index.
abbrev old_byte : Bytes → ℕ
old_byte [] = 0
old_byte (c ∷ cs) = c

abbrev old_rest : Bytes → Bytes
old_rest [] = []
old_rest (c ∷ cs) = cs

-- `old` is the memory from the write index on, the other argument the text from the read index on.
-- A `%` with fewer than two bytes behind it ends the loop; one before anything but two digits takes
-- a place and writes nothing there.
unfoldable pub decode_from : Bytes → Bytes → Bytes
unfolding is_xdigit hex_value
decode_from old [] = []
decode_from old (c ∷ []) = if c == b'%' then [] else c ∷ []
decode_from old (c ∷ x ∷ []) =
    let rest = decode_from (old_rest old) (x ∷ []) in if c == b'%' then [] else c ∷ rest
decode_from old (c ∷ x ∷ y ∷ rest) =
    let literal = decode_from (old_rest old) (x ∷ y ∷ rest) in
    let decoded = decode_from (old_rest old) rest in
    if c == b'%'
    then (if is_xdigit x && is_xdigit y
        then (hex_value x * 16 + hex_value y) ∷ decoded
        else old_byte old ∷ literal)
    else c ∷ literal

-- The text before the terminating 0 that the function writes.
unfoldable pub url_decode : Bytes → Bytes
unfolding decode_from
url_decode str = decode_from str str
