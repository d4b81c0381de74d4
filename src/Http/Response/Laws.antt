-- ===== src/Http/Response/Laws.antt =====
-- What `response_http` sends, and how many headers a response has.
use tst.Common.{
  append-nil, take-all, write_at, Option, List, length-append, arith, take-length_append,
  append_assoc, take_append_add, take, length, ℕ, Bytes, refl, sym, ap, subst, ◌∙◌, none, some,
  false, [], ◌∷◌, ◌+◌, ◌-◌, ◌%◌, ◌^◌, ◌≤◌, ◌<◌, ◌≡◌, ◌↔◌, ◌++◌, ◌==◌,
}
use tst.Pool.Types.{TstData}
use tst.Http.Response.{
  Response, add_header, http_max_headers, status_line, header_text, body_text, sprintf, snprintf,
  put_headers, put_body, response_http,
}

-- The buffer shows this text, and counts it.
pub record Shows (d : TstData) (size : ℕ) (text : Bytes) : Type 0 where
  pub counted : d.com_len ≡ length text
  pub shown : take d.com_len d.s ≡ text
  pub sized : d.s_len ≡ size

take_written :
    (text new rest : Bytes) (n : ℕ)
    → n ≡ length text + length new
    → take n (text ++ ((new ++ 0 ∷ []) ++ rest)) ≡ text ++ new
take_written text new rest n h =
    take_append_add n (length new) text ((new ++ 0 ∷ []) ++ rest) h
    ∙ ap (◌++◌ text) (
        ap (take (length new)) (append_assoc new (0 ∷ []) rest) ∙ take-length_append new (0 ∷ rest))

snprintf_fits :
    (d : TstData) (new : Bytes)
    → d.com_len + length new < d.s_len
    → d.s_len < 2 ^ 32
    → snprintf d new
      ≡ record d { com_len = d.com_len + length new; s = write_at d.s d.com_len (new ++ 0 ∷ []) }
unfolding snprintf
snprintf_fits d new fits small =
    let room = (d.s_len + 2 ^ 32 - d.com_len) % 2 ^ 32 in
    let some_room : (room == 0) ≡ false = ground arith in
    let whole : (d.com_len + length new) % 2 ^ 32 ≡ d.com_len + length new = omega arith in
    rw (some_room, whole, take-all new (room - 1) (omega arith), snprintf) refl

-- A text written behind what is shown, with room for it and the final 0.
written-Shows :
    (d : TstData) (size : ℕ) (text new : Bytes)
    → Shows d size text
    → Shows
        (record d { com_len = d.com_len + length new; s = write_at d.s d.com_len (new ++ 0 ∷ []) })
        size
        (text ++ new)
written-Shows d size text new sh = record {
  counted = let c = sh.counted in omega (arith, length-append text new);
  shown =
      rw (sh.shown)
        (take_written text new _ (d.com_len + length new) (let c = sh.counted in omega arith));
  sized = sh.sized;
}

snprintf-Shows :
    (d : TstData) (size : ℕ) (text new : Bytes)
    → Shows d size text
    → length text + length new < size
    → size < 2 ^ 32
    → Shows (snprintf d new) size (text ++ new)
snprintf-Shows d size text new sh fits small =
    let c = sh.counted in
    let z = sh.sized in
    subst (λ x. Shows x size (text ++ new)) (sym (snprintf_fits d new (omega arith) (omega arith)))
      (written-Shows d size text new sh)

-- The headers as they stand in the response.
unfoldable pub header_texts : List (Bytes × Bytes) → Bytes
header_texts [] = []
header_texts (h ∷ hs) = header_text h ++ header_texts hs

unfoldable pub body_of : Option Bytes → Bytes
body_of none = []
body_of (some []) = []
body_of (some (c ∷ cs)) = body_text (c ∷ cs)

put_headers-Shows :
    (d : TstData) (size : ℕ) (text : Bytes) (hs : List (Bytes × Bytes))
    → Shows d size text
    → length text + length (header_texts hs) < size
    → size < 2 ^ 32
    → Shows (put_headers d hs) size (text ++ header_texts hs)
unfolding put_headers header_texts
put_headers-Shows d size text [] sh fits small = subst (Shows d size) (sym (append-nil text)) sh
put_headers-Shows d size text (h ∷ hs) sh fits small =
    let both = length-append (header_text h) (header_texts hs) in
    subst (Shows (put_headers (snprintf d (header_text h)) hs) size)
      (append_assoc text (header_text h) (header_texts hs))
      (put_headers-Shows (snprintf d (header_text h)) size (text ++ header_text h) hs
        (snprintf-Shows d size text (header_text h) sh (omega arith) small)
        (omega (arith, length-append text (header_text h))) small)

put_body-Shows :
    (d : TstData) (size : ℕ) (text : Bytes) (html : Option Bytes)
    → Shows d size text
    → length text + length (body_of html) < size
    → size < 2 ^ 32
    → Shows (put_body d html) size (text ++ body_of html)
unfolding put_body body_of
put_body-Shows d size text none sh fits small = subst (Shows d size) (sym (append-nil text)) sh
put_body-Shows d size text (some []) sh fits small = subst (Shows d size) (sym (append-nil text)) sh
put_body-Shows d size text (some (c ∷ cs)) sh fits small =
    snprintf-Shows d size text (body_text (c ∷ cs)) sh fits small

sprintf-Shows : (d : TstData) (text : Bytes) → Shows (sprintf d text) d.s_len text
unfolding sprintf
sprintf-Shows d text = record {
  counted = refl;
  shown = take_written [] text _ (length text) (omega arith);
  sized = refl;
}

-- A response whose whole text is shorter than a send buffer of less than 4 GB goes out as that
-- text: the status line, the headers in their order, and the body with its length.
response_http-text :
    (d : TstData) (r : Response)
    → length ((status_line r ++ header_texts r.http_headers) ++ body_of r.html_text) < d.s_len
    → d.s_len < 2 ^ 32
    → (response_http d r).1 ≡ (status_line r ++ header_texts r.http_headers) ++ body_of r.html_text
unfolding response_http
response_http-text d r fits small =
    let front = status_line r ++ header_texts r.http_headers in
    let whole = length-append front (body_of r.html_text) in
    let part = length-append (status_line r) (header_texts r.http_headers) in
    (put_body-Shows _ d.s_len front r.html_text
      (put_headers-Shows _ d.s_len (status_line r) r.http_headers (sprintf-Shows d (status_line r))
        (omega arith) small)
      (omega arith) small).shown

-- A response of at most thirty headers has at most thirty after one is added, and adding is
-- refused exactly when it has thirty.
pub add_header_bounds :
    (r : Response) (name value : Bytes)
    → length r.http_headers ≤ http_max_headers
    → (length (add_header r name value).0.http_headers ≤ http_max_headers)
      × (((add_header r name value).1 ≡ false) ↔ (length r.http_headers ≡ http_max_headers))
unfolding add_header
add_header_bounds r name value h = ground (arith, length-append r.http_headers ((name, value) ∷ []))
