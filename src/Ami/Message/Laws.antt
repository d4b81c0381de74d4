-- ===== src/Ami/Message/Laws.antt =====
-- The loop takes a message as a whole, and no byte of the next one.
use tst.Common.{
  append_assoc, length-append, append-nil, arith, drop, refl, sym, ap, ◌∙◌, zero, suc, ◌+◌, ◌%◌,
  ◌^◌, ◌≤◌, ◌<◌, length, Bytes, some, true, false, [], ◌∷◌, ◌≡◌, ◌++◌,
}
use tst.Pool.Types.{TstData}
use tst.Ami.Message.{read_message, store_byte, set, ℕ, Option, List, is_ended}

-- The buffer with these bytes done.
abbrev pub filled : TstData → Bytes → Bytes → TstData
filled d bytes rest = record d { com_len = length bytes; s = bytes ++ rest }

abbrev pub arrive : Bytes → List (Option (Option ℕ)) → List (Option (Option ℕ))
arrive [] more = more
arrive (b ∷ bs) more = some (some b) ∷ arrive bs more

-- No part of the message ends it before its last byte.
abbrev pub IsFirstEnd : TstData → Bytes → Bytes → Bytes → Type 0
IsFirstEnd d bytes [] rest = is_ended (filled d bytes rest) ≡ true
IsFirstEnd d bytes (b ∷ bs) [] = ⊥
IsFirstEnd d bytes (b ∷ bs) (r ∷ rest) =
    (is_ended (filled d bytes (r ∷ rest)) ≡ false) × IsFirstEnd d (bytes ++ b ∷ []) bs rest

pub set-length_append :
    (bytes rest : Bytes) (r b : ℕ)
    → set (bytes ++ r ∷ rest) (length bytes) b ≡ (bytes ++ b ∷ []) ++ rest
set-length_append [] rest r b = refl
set-length_append (c ∷ bytes) rest r b = ap (◌∷◌ c) (set-length_append bytes rest r b)

store_byte-filled :
    (d : TstData) (bytes rest : Bytes) (r b : ℕ)
    → length bytes + 1 < 2 ^ 32
    → store_byte (filled d bytes (r ∷ rest)) (some (some b)) ≡ filled d (bytes ++ b ∷ []) rest
unfolding store_byte
store_byte-filled d bytes rest r b h =
    let counted : (length bytes + 1) % 2 ^ 32 ≡ length (bytes ++ b ∷ []) =
      omega (arith, length-append bytes (b ∷ [])) in
    λ i. record d { com_len = counted i; s = set-length_append bytes rest r b i }

-- Where the bytes that arrive are a message that ends with its last byte and not before, and there
-- is room and leave for it, the loop ends with the message behind what was there, and all answers
-- that follow it are left. The count stays below 2 ^ 32.
pub read_message-IsFirstEnd :
    (remain : ℕ) (d : TstData) (bytes msg rest : Bytes) (more : List (Option (Option ℕ)))
    → IsFirstEnd d bytes msg rest
    → length msg ≤ remain
    → length bytes + length msg < 2 ^ 32
    → read_message remain (filled d bytes rest) (arrive msg more)
      ≡ (filled d (bytes ++ msg) (drop (length msg) rest), more)
unfolding read_message
read_message-IsFirstEnd zero d bytes [] rest more h le lt =
    ap (λ b. (filled d b rest, more)) (sym (append-nil bytes))
read_message-IsFirstEnd (suc remain) d bytes [] rest more h le lt =
    rw (h, read_message) (ap (λ b. (filled d b rest, more)) (sym (append-nil bytes)))
read_message-IsFirstEnd zero d bytes (b ∷ bs) rest more h le lt = absurd (omega arith)
read_message-IsFirstEnd (suc remain) d bytes (b ∷ bs) [] more h le lt = absurd h
read_message-IsFirstEnd (suc remain) d bytes (b ∷ bs) (r ∷ rest) more (early, h) le lt =
    rw (early, read_message)
      (ap (λ x. read_message remain x (arrive bs more))
          (store_byte-filled d bytes rest r b (omega arith))
        ∙ read_message-IsFirstEnd remain d (bytes ++ b ∷ []) bs rest more h (omega arith)
            (omega (arith, length-append bytes (b ∷ [])))
        ∙ ap (λ x. (filled d x (drop (length bs) rest), more)) (append_assoc bytes (b ∷ []) bs))
