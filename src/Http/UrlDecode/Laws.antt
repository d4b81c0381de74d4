-- ===== src/Http/UrlDecode/Laws.antt =====
-- Decoding an escaped text gives the text back; a `%` that starts no escape is not kept.
use mathlib.Core.Path.{ap₂}
use tst.Common.{
  arith, refl, ap, ◌∙◌, true, false, [], ◌∷◌, inl, inr, ◌+◌, ◌-◌, ◌*◌, ◌≤◌, ◌<◌, ◌≡◌, ◌==◌,
  if◌then◌else◌, ◌&&◌, ℕ, Bool, Bytes, length, All, ltb, not, Bool-cases, ◌/◌, ◌%◌,
}
use tst.Http.UrlDecode.{old_rest, is_xdigit, hex_value, decode_from, url_decode}

-- A hexadecimal digit for a number below 16.
unfoldable pub hex_digit : ℕ → ℕ
hex_digit v = if ltb v 10 then v + b'0' else v - 10 + b'A'

-- A percent-encoder: it keeps the bytes that `keep` allows, and never a `%`.
unfoldable pub escape : (ℕ → Bool) → Bytes → Bytes
unfolding hex_digit
escape keep [] = []
escape keep (c ∷ cs) =
    if keep c && not (c == b'%')
    then c ∷ escape keep cs
    else b'%' ∷ hex_digit (c / 16) ∷ hex_digit (c % 16) ∷ escape keep cs

abbrev pub IsByte : ℕ → Type 0
IsByte b = b < 256

hex_digit-is_xdigit : (v : ℕ) → v < 16 → is_xdigit (hex_digit v) ≡ true
unfolding is_xdigit hex_digit
hex_digit-is_xdigit v h = ground arith

hex_value-hex_digit : (v : ℕ) → v < 16 → hex_value (hex_digit v) ≡ v
unfolding hex_value hex_digit
hex_value-hex_digit v h = ground arith

-- One byte that stands for itself.
decode_from_plain :
    (old : Bytes) (c : ℕ) (cs : Bytes)
    → (c == b'%') ≡ false
    → decode_from old (c ∷ cs) ≡ c ∷ decode_from (old_rest old) cs
unfolding decode_from
decode_from_plain old c [] e = rw e
decode_from_plain old c (x ∷ []) e = rw e
decode_from_plain old c (x ∷ y ∷ cs) e = rw e

decode_from_escape :
    (old : Bytes) (x y : ℕ) (cs : Bytes)
    → is_xdigit x ≡ true
    → is_xdigit y ≡ true
    → decode_from old (b'%' ∷ x ∷ y ∷ cs)
      ≡ (hex_value x * 16 + hex_value y) ∷ decode_from (old_rest old) cs
unfolding decode_from
decode_from_escape old x y cs ex ey = rw (ex, ey)

decode_from-escape :
    (keep : ℕ → Bool) (old s : Bytes) → All IsByte s → decode_from old (escape keep s) ≡ s
unfolding escape
decode_from-escape keep old [] h = unfold decode_from in refl
decode_from-escape keep old (c ∷ cs) (hc, hs) = elim (Bool-cases (keep c && not (c == b'%'))) [
  | inl e ↦ rw e (
      decode_from_plain old c (escape keep cs) (ground arith)
      ∙ ap (◌∷◌ c) (decode_from-escape keep (old_rest old) cs hs))
  | inr e ↦ rw e (
      decode_from_escape old _ _ (escape keep cs) (hex_digit-is_xdigit (c / 16) (omega arith))
        (hex_digit-is_xdigit (c % 16) (omega arith))
      ∙ ap₂ ◌∷◌
          (omega (
            arith,
            hex_value-hex_digit (c / 16) (omega arith),
            hex_value-hex_digit (c % 16) (omega arith),
          ))
          (decode_from-escape keep (old_rest old) cs hs))
]

-- Whatever bytes an encoder chooses to escape in a text of bytes, decoding its output gives the
-- text back.
pub url_decode-escape :
    (keep : ℕ → Bool) (s : Bytes) → All IsByte s → url_decode (escape keep s) ≡ s
unfolding url_decode
url_decode-escape keep s h = decode_from-escape keep (escape keep s) s h

length-decode_from : (old s : Bytes) → length (decode_from old s) ≤ length s
unfolding decode_from
length-decode_from old [] = omega arith
length-decode_from old (c ∷ []) = ground arith
length-decode_from old (c ∷ x ∷ []) = ground (arith, length-decode_from (old_rest old) (x ∷ []))
length-decode_from old (c ∷ x ∷ y ∷ rest) = ground (
  arith,
  length-decode_from (old_rest old) (x ∷ y ∷ rest),
  length-decode_from (old_rest old) rest,
)

-- The decoded text is never longer, so that decoding in place stays within the string.
pub length-url_decode : (s : Bytes) → length (url_decode s) ≤ length s
unfolding url_decode
length-url_decode s = length-decode_from s s

-- Behind an escape with two hexadecimal digits, a `%` that two bytes follow which are not both
-- hexadecimal digits is not kept: its place shows the first digit of the escape before it, which
-- the memory still holds.
pub url_decode_stale :
    (x y u v : ℕ) (rest : Bytes)
    → is_xdigit x ≡ true
    → is_xdigit y ≡ true
    → (is_xdigit u && is_xdigit v) ≡ false
    → url_decode (b'%' ∷ x ∷ y ∷ b'%' ∷ u ∷ v ∷ rest)
      ≡ (hex_value x * 16 + hex_value y) ∷ x ∷ decode_from (y ∷ b'%' ∷ u ∷ v ∷ rest) (u ∷ v ∷ rest)
unfolding url_decode
url_decode_stale x y u v rest ex ey e = rw (ex, ey, e)
