-- ===== src/Http/Server/Reading.antt =====
-- The loop of `http` takes a header as a whole.
use tst.Common.{
  append_assoc, length-append, append-nil, arith, drop, sym, ap, ◌∙◌, zero, suc, ◌+◌, ◌%◌, ◌^◌, ◌≤◌,
  ◌<◌, length, Bytes, some, true, false, [], ◌∷◌, ◌≡◌, ◌++◌, ℕ, set,
}
use tst.Pool.Types.{TstData}
use tst.Http.Server.{read_request, take_byte, is_whole, is_full}
use tst.Ami.Message.Laws.{arrive, set-length_append}

-- The buffer with these bytes received.
abbrev pub received : TstData → Bytes → Bytes → TstData
received d bytes rest = record d { req_pos = 0; com_len = length bytes; s = bytes ++ rest }

-- No part of the header ends it before its last byte.
abbrev pub IsFirstWhole : TstData → Bytes → Bytes → Bytes → Type 0
IsFirstWhole d bytes [] rest = is_whole (received d bytes rest) ≡ true
IsFirstWhole d bytes (b ∷ bs) [] = ⊥
IsFirstWhole d bytes (b ∷ bs) (r ∷ rest) =
    (is_whole (received d bytes (r ∷ rest)) ≡ false) × IsFirstWhole d (bytes ++ b ∷ []) bs rest

take_byte-received :
    (d : TstData) (bytes rest : Bytes) (r b : ℕ)
    → length bytes + 1 < 2 ^ 32
    → take_byte (received d bytes (r ∷ rest)) (some (some b)) ≡ received d (bytes ++ b ∷ []) rest
unfolding take_byte
take_byte-received d bytes rest r b h =
    let counted : (length bytes + 1) % 2 ^ 32 ≡ length (bytes ++ b ∷ []) =
      omega (arith, length-append bytes (b ∷ [])) in
    let start : 0 + length bytes ≡ length bytes = omega arith in
    let stored = ap (λ i. set (bytes ++ r ∷ rest) i b) start ∙ set-length_append bytes rest r b in
    λ i. record d { req_pos = 0; com_len = counted i; s = stored i }

pub is_full-received :
    (d : TstData) (bytes rest : Bytes)
    → length bytes < d.s_len
    → is_full (received d bytes rest) ≡ false
unfolding is_full
is_full-received d bytes rest h = ground arith

-- Where the bytes that arrive are a header that ends with its last byte and not before, and there is
-- room and leave for it, the loop ends with the header behind what was there.
pub read_request-IsFirstWhole :
    (remain : ℕ) (d : TstData) (bytes msg rest : Bytes)
    → IsFirstWhole d bytes msg rest
    → length msg ≤ remain
    → length bytes + length msg < d.s_len
    → d.s_len < 2 ^ 32
    → read_request remain (received d bytes rest) (arrive msg [])
      ≡ received d (bytes ++ msg) (drop (length msg) rest)
unfolding read_request
read_request-IsFirstWhole zero d bytes [] rest h le room lt =
    ap (λ b. received d b rest) (sym (append-nil bytes))
read_request-IsFirstWhole (suc remain) d bytes [] rest h le room lt =
    rw (is_full-received d bytes rest (omega arith), h, read_request)
      (ap (λ b. received d b rest) (sym (append-nil bytes)))
read_request-IsFirstWhole zero d bytes (b ∷ bs) rest h le room lt = absurd (omega arith)
read_request-IsFirstWhole (suc remain) d bytes (b ∷ bs) [] h le room lt = absurd h
read_request-IsFirstWhole (suc remain) d bytes (b ∷ bs) (r ∷ rest) (early, h) le room lt =
    rw (is_full-received d bytes (r ∷ rest) (omega arith), early, read_request)
      (ap (λ x. read_request remain x (arrive bs []))
          (take_byte-received d bytes rest r b (omega arith))
        ∙ read_request-IsFirstWhole remain d (bytes ++ b ∷ []) bs rest h (omega arith)
            (omega (arith, length-append bytes (b ∷ []))) lt
        ∙ ap (λ x. received d x (drop (length bs) rest)) (append_assoc bytes (b ∷ []) bs))

pub IsFirstWhole-is_whole :
    (d : TstData) (bytes msg rest : Bytes)
    → IsFirstWhole d bytes msg rest
    → is_whole (received d (bytes ++ msg) (drop (length msg) rest)) ≡ true
IsFirstWhole-is_whole d bytes [] rest h =
    ap (λ b. is_whole (received d b rest)) (append-nil bytes) ∙ h
IsFirstWhole-is_whole d bytes (b ∷ bs) [] h = absurd h
IsFirstWhole-is_whole d bytes (b ∷ bs) (r ∷ rest) (early, h) =
    ap (λ x. is_whole (received d x (drop (length bs) rest))) (sym (append_assoc bytes (b ∷ []) bs))
    ∙ IsFirstWhole-is_whole d (bytes ++ b ∷ []) bs rest h
