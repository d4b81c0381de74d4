-- ===== src/Http/Handler/Whole.antt =====
-- `http` on a header that arrives as a whole.
use tst.Common.{
  get_or, ◌-◌, append_assoc, arith, drop, refl, sym, ap, ◌∙◌, ◌+◌, ◌^◌, ◌≤◌, ◌<◌, length, Bytes,
  some, none, true, false, [], ◌∷◌, ◌≡◌, ◌++◌, ◌==◌, ℕ, set, min,
}
use tst.Http.Query.{c_str}
use tst.Http.Request.{parse_request}
use tst.Http.Query.Parsing.{Lacks}
use tst.Ami.Actions.Writing.{c_str-zero}
use tst.Pool.Types.{TstData, Socket}
use tst.Http.Types.{User}
use tst.Http.Server.{is_whole}
use tst.Http.Server.Reading.{
  received, IsFirstWhole, read_request-IsFirstWhole, is_full-received, IsFirstWhole-is_whole,
}
use tst.Http.Handler.{Site, ended, on_input, on_bytes, serve_http, http}
use tst.Ami.Message.Laws.{arrive, set-length_append}

-- The header, a 0, and what the memory holds behind it.
abbrev pub terminated : TstData → Bytes → Bytes → TstData
terminated d msg tail = record d { req_pos = 0; com_len = length msg; s = (msg ++ 0 ∷ []) ++ tail }

-- An event by which the header `msg` arrives, read a byte at a time, on a connection that `http` has
-- and that has no request: its first empty line is at its end, the buffer is empty and has room for
-- it, and the memory is `rest`, of which `tail` stands behind the header and a byte.
pub record Arrives (k : Socket User) (d : TstData) (msg rest tail : Bytes) (r : ℕ) : Type 0 where
  pub own : k.func ≡ 0
  pub idle : k.user_data ≡ none
  pub input : k.events.epollin ≡ true
  pub buffer : k.recv ≡ some (received d [] rest)
  pub first : IsFirstWhole d [] msg rest
  pub behind : drop (length msg) rest ≡ r ∷ tail
  pub some_bytes : 1 ≤ length msg
  pub told : length msg ≤ d.checked_len
  pub room : length msg < d.s_len
  pub sized : d.s_len < 2 ^ 32
  pub clean : Lacks 0 msg

c_str-terminated :
    (d : TstData) (msg tail : Bytes) → Lacks 0 msg → c_str (terminated d msg tail).s ≡ msg
c_str-terminated d msg tail clean =
    ap c_str (append_assoc msg (0 ∷ []) tail) ∙ c_str-zero msg tail clean

-- The byte behind the 0 that ends the header.
get_or-terminated :
    (msg tail : Bytes) → get_or ((msg ++ 0 ∷ []) ++ tail) (length msg + 1) 0 ≡ get_or tail 0 0
get_or-terminated [] tail = refl
get_or-terminated (c ∷ msg) tail = ground (arith, get_or-terminated msg tail)

module _ {G : Type 0} (site : Site G) where
  -- The buffer that the header is parsed from.
  ended-received :
      (d : TstData) (msg tail : Bytes) (r : ℕ)
      → ended (received d msg (r ∷ tail)) ≡ terminated d msg tail
  ended-received d msg tail r =
      let start : 0 + length msg ≡ length msg = omega arith in
      let stored = ap (λ i. set (msg ++ r ∷ tail) i 0) start ∙ set-length_append msg tail r 0 in
      λ i. record d { req_pos = 0; com_len = length msg; s = stored i }

  on_input-whole :
      (k : Socket User) (d : TstData) (msg rest tail : Bytes) (r : ℕ) (g : G)
      → IsFirstWhole d [] msg rest
      → drop (length msg) rest ≡ r ∷ tail
      → 1 ≤ length msg
      → length msg ≤ d.checked_len
      → length msg < d.s_len
      → d.s_len < 2 ^ 32
      → on_input site k (received d [] rest) (arrive msg []) g
        ≡ on_bytes site k (terminated d msg tail) k.user_data g
  unfolding on_input
  on_input-whole k d msg rest tail r g first behind some_bytes told room lt =
      let remain = min (d.s_len - 0 - 0) d.checked_len in
      let got =
        read_request-IsFirstWhole remain d [] msg rest first (omega arith) (omega arith) lt
        ∙ ap (received d msg) behind in
      let full = is_full-received d msg (r ∷ tail) room in
      let whole =
        ap (λ x. is_whole (received d msg x)) (sym behind)
        ∙ IsFirstWhole-is_whole d [] msg rest first in
      let any : (d.checked_len == 0) ≡ false = ground arith in
      rw (any, got, full, whole, on_input)
        (ap (λ x. on_bytes site k x k.user_data g) (ended-received d msg tail r))

  -- What is parsed is the header, with the byte behind it.
  pub http-on_bytes :
      (k : Socket User) (d : TstData) (msg rest tail : Bytes) (r : ℕ) (g : G)
      → Arrives k d msg rest tail r
      → (http site k (arrive msg []) g ≡ on_bytes site k (terminated d msg tail) none g)
        × (parse_request
              (c_str (terminated d msg tail).s)
              (get_or (terminated d msg tail).s (length (c_str (terminated d msg tail).s) + 1) 0)
            ≡ parse_request msg (get_or tail 0 0))
  unfolding http serve_http
  http-on_bytes k d msg rest tail r g i =
      let no_own : (k.func == 0) ≡ true = ap (λ f. f == 0) i.own in
      let served : serve_http site k (arrive msg []) g
          ≡ on_input site k (received d [] rest) (arrive msg []) g =
        simp (i.buffer, i.input, serve_http) in
      let called : http site k (arrive msg []) g ≡ serve_http site k (arrive msg []) g =
        rw (no_own, http) refl in
      (
        called
            ∙ served
            ∙ on_input-whole k d msg rest tail r g i.first i.behind i.some_bytes i.told i.room
                i.sized
            ∙ ap (λ u. on_bytes site k (terminated d msg tail) u g) i.idle,
        rw (c_str-terminated d msg tail i.clean, get_or-terminated msg tail) refl,
      )
