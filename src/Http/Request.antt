-- ===== src/Http/Request.antt =====
-- amiproc/http.cpp, `http`: how the header of a request is cut into its parts.
pub mod Laws
pub mod Whole
use tst.Common.{
  codes, length, take, drop, Option, ℕ, Bytes, List, refl, sym, ap, subst, ◌∙◌, none, some, true,
  false, [], ◌∷◌, inl, inr, zero, suc, ◌+◌, ◌-◌, ◌*◌, ◌/◌, ◌%◌, ◌^◌, ◌≤◌, ◌<◌, ◌≡◌, ◌≢◌, ◌↔◌, ◌⊎◌,
  ◌++◌, ◌==◌, if◌then◌else◌, ◌&&◌, ◌||◌,
}
use tst.Http.Types.{Request}
use tst.Http.Query.{equal, split_at}
use tst.Http.UrlDecode.{url_decode}

-- `get_httpheader`: the value of the first header of this name, and the empty text for none.
unfoldable pub get_httpheader : List (Bytes × Option Bytes) → Bytes → Option Bytes
unfolding equal
get_httpheader [] name = some []
get_httpheader ((n, v) ∷ more) name = if equal n name then v else get_httpheader more name

-- A header line: the search for the colon passes over the first byte, and the value starts two
-- bytes behind the colon.
unfoldable pub header_line : Bytes → Bytes × Option Bytes
unfolding split_at
header_line [] = ([], none)
header_line (c ∷ cs) = elim (split_at b':' cs) [
  | none ↦ (c ∷ cs, none)
  | some (name, value) ↦ (c ∷ name, some (drop 1 value))
]

-- `http_headers[HTTP_MAX_HEADERS]`
abbrev pub max_headers : ℕ
max_headers = 30

abbrev pub put_header :
    Bytes × Option Bytes
    → Option (List (Bytes × Option Bytes))
    → Option (List (Bytes × Option Bytes))
put_header h none = none
put_header h (some hs) = some (h ∷ hs)

-- The lines up to the end of the text. The search for a CR passes over the first byte of a line, so
-- that the empty line is none. Each line takes two bytes at least: fuel for each byte suffices. `none`
-- is a line for which no place is left, since no test keeps them to those there are, and a CR at the
-- very end, behind which the text is run past.
unfoldable pub header_lines : (left : ℕ) → ℕ → Bytes → Option (List (Bytes × Option Bytes))
unfolding header_line split_at
header_lines left zero text = some []
header_lines left (suc fuel) [] = some []
header_lines left (suc fuel) (c ∷ cs) = elim (split_at b'\r' cs) [
  | none ↦ some []
  | some (line, []) ↦ none
  | some (line, d ∷ rest) ↦ elim left [
    | zero ↦ none
    | suc n ↦ put_header (header_line (c ∷ line)) (header_lines n fuel rest)
  ]
]

-- `HTTP/1.0` or `HTTP/1.1`, of which the three last bytes are kept.
unfoldable pub version_of : Bytes → Option Bytes
unfolding equal
version_of text =
    let version = take 3 (drop 5 text) in
    if equal (take 5 text) (codes "HTTP/")
      && (equal version (codes "1.0") || equal version (codes "1.1"))
    then some version
    else none

-- Where the URI holds no `?`, the loop steps over the 0 behind it and on: over the version and the
-- 0 behind that, and over `passed`, the rest of the line, and the name of the first header. A `?` in
-- that name is taken for the query's, and cuts the name. The name's end has a second 0 behind it; the
-- end of the text, where there is no header, has the byte `behind`. `none` is a scan that goes on
-- there, and a `?` in the rest of the line, behind which decoding rewrites the name in place: that is
-- left out.
unfoldable pub past_uri :
    Bytes
    → (passed lines : Bytes) → List (Bytes × Option Bytes)
    → (behind : ℕ) → Option (Bytes × Bytes × List (Bytes × Option Bytes))
unfolding split_at
past_uri uri passed lines [] behind = elim (split_at b'?' (passed ++ lines)) [
  | none ↦ if behind == 0 then some (uri, [], []) else none
  | some (front, query) ↦ some (uri, query, [])
]
past_uri uri passed lines ((name, value) ∷ more) behind = elim (split_at b'?' passed) [
  | some found ↦ none
  | none ↦ elim (split_at b'?' name) [
    | none ↦ some (uri, [], (name, value) ∷ more)
    | some (front, query) ↦ some (uri, query, (front, value) ∷ more)
  ]
]

-- The URI before the `?`, and what follows it, with the headers as that leaves them. For an empty
-- URI the pointer to the query stays null, which reads as an empty query.
unfoldable pub split_uri :
    Bytes
    → (passed lines : Bytes) → List (Bytes × Option Bytes)
    → (behind : ℕ) → Option (Bytes × Bytes × List (Bytes × Option Bytes))
unfolding split_at past_uri
split_uri [] passed lines headers behind = some ([], [], headers)
split_uri (c ∷ cs) passed lines headers behind = elim (split_at b'?' (c ∷ cs)) [
  | none ↦ past_uri (c ∷ cs) passed lines headers behind
  | some (path, query) ↦ some (path, query, headers)
]

-- What comes of a header's text: a request, the answer 505, or an access through a null pointer or
-- outside the text.
pub data Header : Type 0 where
  well_formed : Request → Header
  unsupported lost : Header

-- Behind the URI. The byte behind the version is overwritten before the end of the line is looked
-- for, from the next byte on. The two parts of the URI are decoded once they are cut.
unfoldable pub parse_tail : (method uri tail : Bytes) → (behind : ℕ) → Header
unfolding split_at version_of header_lines split_uri url_decode
parse_tail method uri [] behind = lost
parse_tail method uri (t ∷ ts) behind = elim (version_of (t ∷ ts)) [
  | none ↦ unsupported
  | some version ↦ elim (split_at b'\n' (drop 9 (t ∷ ts))) [
    | none ↦ lost
    | some (line, lines) ↦ elim (header_lines max_headers (length (t ∷ ts)) lines) [
      | none ↦ lost
      | some headers ↦ elim (split_uri uri (line ++ b'\n' ∷ []) lines headers behind) [
        | none ↦ lost
        | some (path, query, left) ↦ well_formed (record {
          request_method = method;
          request_uri = url_decode path;
          query_string = url_decode query;
          http_version = version;
          version_at = length method + 1 + length uri + 1 + 5;
          http_headers = left;
        })
      ]
    ]
  ]
]

-- The text, and the byte behind the 0 that ends it. Without two blanks the URI is a null pointer.
unfoldable pub parse_request : Bytes → (behind : ℕ) → Header
unfolding split_at parse_tail
parse_request text behind = elim (split_at b' ' text) [
  | none ↦ lost
  | some (method, rest) ↦ elim (split_at b' ' rest) [
    | none ↦ lost
    | some (uri, tail) ↦ parse_tail method uri tail behind
  ]
]
