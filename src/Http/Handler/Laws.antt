-- ===== src/Http/Handler/Laws.antt =====
-- How far the loop of `http` reads.
use tst.Common.{
  length, All, List, Option, ◌∙◌, none, some, false, ◌∷◌, zero, suc, ◌+◌, ◌^◌, ◌≤◌, ◌<◌, ◌≢◌, ◌||◌,
  arith, Bool-cases, ℕ, refl, [], inl, inr, ◌≡◌,
}
use tst.Pool.Types.{TstData}
use tst.Http.Server.{is_whole, is_full, take_byte, read_request}

-- No answer of `read` is -1.
abbrev pub IsRead : Option (Option ℕ) → Type 0
IsRead a = a ≢ none

take_byte-bounds :
    (d : TstData) (a : Option (Option ℕ))
    → a ≢ none
    → d.req_pos + d.com_len < d.s_len
    → d.s_len < 2 ^ 32
    → let e = take_byte d a in (e.req_pos + e.com_len ≤ e.s_len) × (e.s_len ≡ d.s_len)
unfolding take_byte
take_byte-bounds d none ne h small = absurd (ne refl)
take_byte-bounds d (some none) ne h small = (omega arith, refl)
take_byte-bounds d (some (some b)) ne h small = (omega arith, refl)

not_full : (d : TstData) → is_full d ≡ false → d.req_pos + d.com_len < d.s_len
unfolding is_full
not_full d h = ground arith

-- With an answer for each byte that the loop may read, none of them -1, a loop that starts within
-- a buffer of less than 4 GB stays within it, whatever the bytes are.
pub read_request_bounds :
    (remain : ℕ) (d : TstData) (answers : List (Option (Option ℕ)))
    → All IsRead answers
    → remain ≤ length answers
    → d.req_pos + d.com_len ≤ d.s_len
    → d.s_len < 2 ^ 32
    → let e = read_request remain d answers in
      (e.req_pos + e.com_len ≤ e.s_len) × (e.s_len ≡ d.s_len)
unfolding read_request
read_request_bounds zero d answers h enough le small = (le, refl)
read_request_bounds (suc remain) d [] h enough le small = absurd (omega arith)
read_request_bounds (suc remain) d (a ∷ more) (read, h) enough le small =
    elim (Bool-cases (is_full d || is_whole d)) [
      | inl ready ↦ rw (ready, read_request) (le, refl)
      | inr open_end ↦
          let free : d.req_pos + d.com_len < d.s_len = ground (arith, not_full d) in
          let (fits, same) = take_byte-bounds d a read free small in
          let (far, kept) =
            read_request_bounds remain (take_byte d a) more h (omega arith) fits
              (omega (arith, same)) in
          rw (open_end, read_request) (far, kept ∙ same)
    ]
