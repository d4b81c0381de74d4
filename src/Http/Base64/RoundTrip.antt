-- ===== src/Http/Base64/RoundTrip.antt =====
-- Decoding what was encoded, and the lengths of both.
use tst.Common.{
  length-append, arith, append-nil, refl, sym, ap, ◌∙◌, none, [], ◌∷◌, zero, suc, ◌+◌, ◌*◌, ◌/◌,
  ◌<◌, ◌≡◌, ◌++◌, ℕ, Bytes, Option, length, All,
}
use tst.Http.Base64.Bits.{first_value, second_value, third_value, fourth_value, b64reverse_end}
use tst.Http.Base64.{
  first_letter, second_letter, third_letter, fourth_letter, encode_loop, pad, encoded,
  base64_encode, decode_group, decode_loop, base64_decode,
}

abbrev pub IsByte : ℕ → Type 0
IsByte b = b < 256

decode_group-three :
    (i a b c : ℕ) (more : Bytes × Option ℕ)
    → a < 256
    → b < 256
    → c < 256
    → decode_group i (first_letter a) (second_letter a b) (third_letter b c) (fourth_letter c) more
      ≡ (a ∷ b ∷ c ∷ more.0, more.1)
unfolding decode_group
decode_group-three i a b c more ha hb hc =
    rw (first_value a ha, second_value a b ha hb, third_value b c hb hc, fourth_value c hc)
      (ground arith)

decode_group-two :
    (i a b : ℕ) (more : Bytes × Option ℕ)
    → a < 256
    → b < 256
    → decode_group i (first_letter a) (second_letter a b) (third_letter b 0) b'=' more
      ≡ (a ∷ b ∷ more.0, more.1)
unfolding decode_group
decode_group-two i a b more ha hb =
    rw (first_value a ha, second_value a b ha hb, third_value b 0 hb (omega arith), b64reverse_end)
      (ground arith)

decode_group-one :
    (i a : ℕ) (more : Bytes × Option ℕ)
    → a < 256
    → decode_group i (first_letter a) (second_letter a 0) b'=' b'=' more ≡ (a ∷ more.0, more.1)
unfolding decode_group
decode_group-one i a more ha =
    rw (first_value a ha, second_value a 0 ha (omega arith), b64reverse_end) (ground arith)

pad-add_four : (fuel j k : ℕ) → k ≡ j + 4 → pad fuel k ≡ pad fuel j
unfolding pad
pad-add_four zero j k e = refl
pad-add_four (suc fuel) j k e = ground (arith, pad-add_four fuel (j + 1) (k + 1))

encoded-cons :
    (a b c : ℕ) (rest : Bytes)
    → encoded (a ∷ b ∷ c ∷ rest)
      ≡ first_letter a ∷ second_letter a b ∷ third_letter b c ∷ fourth_letter c ∷ encoded rest
unfolding encoded
encoded-cons a b c rest =
    ap
      (λ (p : Bytes).
        first_letter a
        ∷ second_letter a b
        ∷ third_letter b c
        ∷ fourth_letter c
        ∷ (encode_loop rest ++ p))
      (pad-add_four 3 (length (encode_loop rest)) _ (omega arith))

-- Decoding what was encoded gives the bytes back, and goes on with whatever follows.
decode-encoded_append :
    (src rest : Bytes) (i j : ℕ)
    → All IsByte src
    → j ≡ i + length (encoded src)
    → decode_loop i (encoded src ++ rest) ≡ (src ++ (decode_loop j rest).0, (decode_loop j rest).1)
unfolding decode_loop
decode-encoded_append [] rest i j h e = unfold encoded in rw (let e' : j ≡ i = omega arith in e')
decode-encoded_append (a ∷ []) rest i j h e =
    unfold encoded in rw (decode_group-one i a _ h.0) (rw (let e' : j ≡ i + 4 = omega arith in e'))
decode-encoded_append (a ∷ b ∷ []) rest i j h e =
    unfold encoded in
    rw (decode_group-two i a b _ h.0 h.1.0) (rw (let e' : j ≡ i + 4 = omega arith in e'))
decode-encoded_append (a ∷ b ∷ c ∷ src) rest i j h e = rw (encoded-cons a b c src) (
    decode_group-three i a b c _ h.0 h.1.0 h.1.1.0
    ∙ ap (λ (r : Bytes × Option ℕ). (a ∷ b ∷ c ∷ r.0, r.1))
        (decode-encoded_append src rest (i + 4) j h.1.1.1
          (e ∙ omega (arith, ap length (encoded-cons a b c src)))))

-- For every sequence of bytes, decoding its encoding succeeds and returns exactly that sequence.
pub decode-encode : (src : Bytes) → All IsByte src → base64_decode (encoded src) ≡ (src, none)
unfolding base64_decode
decode-encode src h =
    ap (λ (s : Bytes). decode_loop 0 s) (sym (append-nil (encoded src)))
    ∙ decode-encoded_append src [] 0 (length (encoded src)) h (omega arith)
    ∙ ap (λ (s : Bytes). (s, none)) (append-nil src)

-- The encoder writes four letters for each three bytes begun, and the terminating 0.
pub length-base64_encode : (src : Bytes) → length (base64_encode src) ≡ (length src + 2) / 3 * 4 + 1
unfolding base64_encode
length-base64_encode [] = refl
length-base64_encode (a ∷ []) = refl
length-base64_encode (a ∷ b ∷ []) = refl
length-base64_encode (a ∷ b ∷ c ∷ src) = omega (
  arith,
  length-append (encoded (a ∷ b ∷ c ∷ src)) (0 ∷ []),
  length-append (encoded src) (0 ∷ []),
  ap length (encoded-cons a b c src),
  length-base64_encode src,
)
