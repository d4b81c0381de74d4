-- ===== src/Http/Request/Whole.antt =====
-- The parser of `http` against a request as a client writes it.
use tst.Common.{
  none, Option-cases, [], inl, inr, ◌≤◌, arith, length, All, codes, List, Bytes, Bool, refl, some,
  true, false, ◌∷◌, ◌+◌, ◌≡◌, ◌++◌,
}
use tst.Http.Query.{split_at}
use tst.Http.Query.Parsing.{split_at-none, Lacks, split_at-append}
use tst.Http.UrlDecode.{url_decode}
use tst.Http.Request.{
  max_headers, well_formed, parse_tail, past_uri, past_uri, parse_tail, well_formed, max_headers,
  header_lines, version_of, split_uri, parse_request,
}
use tst.Http.Request.Laws.{write_headers, IsHeader, values, header_lines-write_headers}

-- The two versions that are taken.
abbrev pub version : Bool → Bytes
version false = codes "1.0"
version true = codes "1.1"

abbrev pub write_version : Bool → List (Bytes × Bytes) → Bytes
write_version newer hs = codes "HTTP/" ++ (version newer ++ b'\r' ∷ b'\n' ∷ write_headers hs)

abbrev pub write_request : Bytes → Bytes → Bool → List (Bytes × Bytes) → Bytes
write_request method uri newer hs = method ++ b' ' ∷ (uri ++ b' ' ∷ write_version newer hs)

version_lem :
    (newer : Bool) (hs : List (Bytes × Bytes))
    → version_of (write_version newer hs) ≡ some (version newer)
unfolding version_of
version_lem false hs = refl
version_lem true hs = refl

lines_lem :
    (newer : Bool) (hs : List (Bytes × Bytes))
    → All IsHeader hs
    → length hs ≤ 30
    → header_lines max_headers (length (write_version newer hs)) (write_headers hs)
      ≡ some (values hs)
lines_lem false hs h few = header_lines-write_headers _ _ hs few h (omega arith)
lines_lem true hs h few = header_lines-write_headers _ _ hs few h (omega arith)

-- The URI in its two parts.
unfoldable pub cut_uri : Bytes → Bytes × Bytes
unfolding split_at
cut_uri uri = elim (split_at b'?' uri) [ none ↦ (uri, []) | some parts ↦ parts ]

abbrev first_name : List (Bytes × Bytes) → Bytes
first_name [] = []
first_name ((n, v) ∷ hs) = n

split_uri-write_headers :
    (uri : Bytes) (hs : List (Bytes × Bytes))
    → Lacks b'?' (first_name hs)
    → split_uri uri (b'\n' ∷ []) (write_headers hs) (values hs) 0
      ≡ some ((cut_uri uri).0, (cut_uri uri).1, values hs)
unfolding split_uri past_uri cut_uri values split_at write_headers
split_uri-write_headers [] hs clean = refl
split_uri-write_headers (c ∷ cs) [] clean = elim (Option-cases (split_at b'?' (c ∷ cs))) [
  | inr ((path, query), found) ↦ rw (found, split_uri, cut_uri) refl
  | inl gone ↦ rw (gone, split_uri, cut_uri) refl
]
split_uri-write_headers (c ∷ cs) ((n, v) ∷ more) clean =
    elim (Option-cases (split_at b'?' (c ∷ cs))) [
      | inr ((path, query), found) ↦ rw (found, split_uri, cut_uri) refl
      | inl gone ↦ rw (gone, split_uri, cut_uri) (rw (split_at-none b'?' n clean, past_uri) refl)
    ]

parse_tail-write_version :
    (method uri : Bytes) (newer : Bool) (hs : List (Bytes × Bytes))
    → All IsHeader hs
    → length hs ≤ 30
    → Lacks b'?' (first_name hs)
    → parse_tail method uri (write_version newer hs) 0
      ≡ well_formed (record {
        request_method = method;
        request_uri = url_decode (cut_uri uri).0;
        query_string = url_decode (cut_uri uri).1;
        http_version = version newer;
        version_at = length method + 1 + length uri + 1 + 5;
        http_headers = values hs;
      })
unfolding parse_tail version_of split_at
parse_tail-write_version method uri false hs h few clean =
    rw (lines_lem false hs h few, split_uri-write_headers uri hs clean, parse_tail) refl
parse_tail-write_version method uri true hs h few clean =
    rw (lines_lem true hs h few, split_uri-write_headers uri hs clean, parse_tail) refl

-- A request line whose method and URI hold no blank, with either version, and at most 30 headers
-- of the form that is read back, with no `?` in the first one's name and a 0 behind the text's
-- end, are parsed into these parts, with the two parts of the URI decoded.
pub parse_request-write_request :
    (method uri : Bytes) (newer : Bool) (hs : List (Bytes × Bytes))
    → Lacks b' ' method
    → Lacks b' ' uri
    → All IsHeader hs
    → length hs ≤ 30
    → Lacks b'?' (first_name hs)
    → parse_request (write_request method uri newer hs) 0
      ≡ well_formed (record {
        request_method = method;
        request_uri = url_decode (cut_uri uri).0;
        query_string = url_decode (cut_uri uri).1;
        http_version = version newer;
        version_at = length method + 1 + length uri + 1 + 5;
        http_headers = values hs;
      })
unfolding parse_request
parse_request-write_request method uri newer hs hm hu h few clean =
    rw
      (
        split_at-append b' ' method (uri ++ b' ' ∷ write_version newer hs) hm,
        split_at-append b' ' uri (write_version newer hs) hu,
        parse_request,
      )
      (parse_tail-write_version method uri newer hs h few clean)
