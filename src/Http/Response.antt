-- ===== src/Http/Response.antt =====
-- amiproc/http.h, `RESPONSE_INFO`, and amiproc/http.cpp, `response_http`.
pub mod Laws
use tst.Common.{
  write_at, leb, Bool, length, ltb, take, codes, ℕ, Bytes, Option, List, refl, sym, ap, subst, ◌∙◌,
  none, some, true, false, [], ◌∷◌, inl, inr, zero, suc, ◌+◌, ◌-◌, ◌*◌, ◌/◌, ◌%◌, ◌^◌, ◌≤◌, ◌<◌,
  ◌≡◌, ◌≢◌, ◌↔◌, ◌⊎◌, ◌++◌, ◌==◌, if◌then◌else◌, ◌&&◌, ◌||◌,
}
use tst.Pool.Types.{TstData, u32_mod}

-- `html_text` is none for a null pointer.
pub record Response : Type 0 where
  pub http_version : Bytes
  pub http_code : ℕ
  pub response_text : Bytes
  pub http_headers : List (Bytes × Bytes)
  pub html_text : Option Bytes

abbrev pub http_max_headers : ℕ
http_max_headers = 30

-- `addHeader`: whether there was a place.
unfoldable pub add_header : Response → Bytes → Bytes → Response × Bool
add_header r name value =
    if leb http_max_headers (length r.http_headers)
    then (r, false)
    else (record r { http_headers = r.http_headers ++ (name, value) ∷ [] }, true)

-- `%d` and `%u`: fuel for each of the ten digits of a 32-bit number.
unfoldable pub decimal : ℕ → ℕ → Bytes
decimal zero n = []
decimal (suc fuel) n =
    let front = decimal fuel (n / 10) in
    if ltb n 10 then (b'0' + n) ∷ [] else front ++ (b'0' + n % 10) ∷ []

abbrev pub crlf : Bytes
crlf = b'\r' ∷ b'\n' ∷ []

abbrev pub status_line : Response → Bytes
status_line r =
    codes "HTTP/"
    ++ (r.http_version ++ b' ' ∷ (decimal 10 r.http_code ++ b' ' ∷ (r.response_text ++ crlf)))

abbrev pub header_text : Bytes × Bytes → Bytes
header_text (name, value) = name ++ b':' ∷ b' ' ∷ (value ++ crlf)

abbrev pub body_text : Bytes → Bytes
body_text html =
    codes "Content-Length: "
    ++ (decimal 10 (length html) ++ (crlf ++ (crlf ++ (html ++ (crlf ++ crlf)))))

-- `sprintf(s, …)`, the terminating 0 included, with no regard to the room.
unfoldable pub sprintf : TstData → Bytes → TstData
sprintf d text = record d { com_len = length text; s = write_at d.s 0 (text ++ 0 ∷ []) }

-- `com_len += snprintf(s + com_len, s_len - com_len, …)`: the room is a uint32_t, and what is added
-- is the length of the whole text, also where it is cut.
unfoldable pub snprintf : TstData → Bytes → TstData
snprintf d text =
    let room = (d.s_len + u32_mod - d.com_len) % u32_mod in
    let full = (d.com_len + length text) % u32_mod in
    if room == 0
    then record d { com_len = full }
    else record d { com_len = full; s = write_at d.s d.com_len (take (room - 1) text ++ 0 ∷ []) }

unfoldable pub put_headers : TstData → List (Bytes × Bytes) → TstData
unfolding snprintf
put_headers d [] = d
put_headers d (h ∷ hs) = put_headers (snprintf d (header_text h)) hs

unfoldable pub put_body : TstData → Option Bytes → TstData
unfolding snprintf
put_body d none = d
put_body d (some []) = d
put_body d (some (c ∷ cs)) = snprintf d (body_text (c ∷ cs))

-- The send buffer afterwards, and the bytes that `write` is given. `strrtrim`, called on the text
-- of the status line, sets its own pointer and no byte, and changes nothing.
unfoldable pub response_http : TstData → Response → TstData × Bytes
unfolding sprintf put_headers put_body
response_http d r =
    let after = put_body (put_headers (sprintf d (status_line r)) r.http_headers) r.html_text in
    (after, take after.com_len after.s)
