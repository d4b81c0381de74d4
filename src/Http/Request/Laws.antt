-- ===== src/Http/Request/Laws.antt =====
-- The parser of a request header against the text form of the headers, and the lookup of a header.
use tst.Common.{
  length-append, append_assoc, All-append, arith, length, All, Option, ℕ, Bytes, List, refl, sym,
  ap, ◌∙◌, some, [], ◌∷◌, zero, suc, ◌≤◌, ◌≡◌, ◌≢◌, ◌++◌,
}
use tst.Http.Query.{split_at}
use tst.Http.Query.Parsing.{Lacks, split_at-append}
use tst.Http.Request.{put_header, header_line, header_lines}

-- Header lines as a client sends them, and the empty line.
unfoldable pub write_headers : List (Bytes × Bytes) → Bytes
write_headers [] = b'\r' ∷ b'\n' ∷ []
write_headers ((n, v) ∷ more) = n ++ b':' ∷ b' ' ∷ (v ++ b'\r' ∷ b'\n' ∷ write_headers more)

abbrev pub IsHeader : Bytes × Bytes → Type 0
IsHeader (n, v) = (n ≢ []) × Lacks b':' n × Lacks b'\r' n × Lacks b'\r' v

abbrev pub with_value : Bytes × Bytes → Bytes × Option Bytes
with_value (n, v) = (n, some v)

unfoldable pub values : List (Bytes × Bytes) → List (Bytes × Option Bytes)
values [] = []
values (h ∷ hs) = with_value h ∷ values hs

header_line_lem :
    (c : ℕ) (n v : Bytes)
    → Lacks b':' n
    → header_line (c ∷ (n ++ b':' ∷ b' ' ∷ v)) ≡ (c ∷ n, some v)
unfolding header_line
header_line_lem c n v h = rw (split_at-append b':' n (b' ' ∷ v) h, header_line) refl

header_lines_step :
    (n fuel c : ℕ) (line more : Bytes)
    → Lacks b'\r' line
    → header_lines (suc n) (suc fuel) (c ∷ (line ++ b'\r' ∷ b'\n' ∷ more))
      ≡ put_header (header_line (c ∷ line)) (header_lines n fuel more)
unfolding header_lines
header_lines_step n fuel c line more h =
    rw (split_at-append b'\r' line (b'\n' ∷ more) h, header_lines) refl

-- With places for all and fuel for each byte, headers whose names are not empty and hold no colon,
-- and which hold no CR, are read back as they are, from their lines with the empty line behind them.
pub header_lines-write_headers :
    (left fuel : ℕ) (hs : List (Bytes × Bytes))
    → length hs ≤ left
    → All IsHeader hs
    → length (write_headers hs) ≤ fuel
    → header_lines left fuel (write_headers hs) ≡ some (values hs)
unfolding write_headers values header_lines split_at
header_lines-write_headers left zero [] few h le = refl
header_lines-write_headers left (suc fuel) [] few h le = refl
header_lines-write_headers left fuel (([], v) ∷ hs) few (h, rest) le = absurd (h.0 refl)
header_lines-write_headers zero fuel ((c ∷ n, v) ∷ hs) few h le = absurd (omega arith)
header_lines-write_headers left zero ((c ∷ n, v) ∷ hs) few h le = absurd (omega arith)
header_lines-write_headers (suc left) (suc fuel) ((c ∷ n, v) ∷ hs) few
      ((ne, (c1, hc), (r1, hn), hv), rest) le =
    let line = n ++ b':' ∷ b' ' ∷ v in
    let after = b'\n' ∷ write_headers hs in
    let whole : Lacks b'\r' line =
      All-append (λ x. x ≢ b'\r') n (b':' ∷ b' ' ∷ v) hn
        ((λ e. omega arith), ((λ e. omega arith), hv)) in
    ap (λ t. header_lines (suc left) (suc fuel) (c ∷ t))
      (sym (append_assoc n (b':' ∷ b' ' ∷ v) (b'\r' ∷ after)))
    ∙ header_lines_step left fuel c line (write_headers hs) whole
    ∙ (λ i. put_header (header_line_lem c n v hc i) (
        header_lines-write_headers left fuel hs (omega arith) rest
          (omega (
            arith,
            length-append n (b':' ∷ b' ' ∷ (v ++ b'\r' ∷ after)),
            length-append v (b'\r' ∷ after),
          ))
          i))
