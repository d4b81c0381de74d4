-- ===== src/Http/Routes.antt =====
-- amiproc/http_routes.cpp: the three routes, by the response that they give and the next state.
pub mod Laws
use tst.Common.{
  get_or, length, not, ltb, Option, Bool, ℕ, codes, Bytes, refl, sym, ap, subst, ◌∙◌, none, some,
  true, false, [], ◌∷◌, inl, inr, zero, suc, ◌+◌, ◌-◌, ◌*◌, ◌/◌, ◌%◌, ◌^◌, ◌≤◌, ◌<◌, ◌≡◌, ◌≢◌, ◌↔◌,
  ◌⊎◌, ◌++◌, ◌==◌, if◌then◌else◌, ◌&&◌, ◌||◌,
}
use tst.Pool.Types.{Stat, tst_suspend, tst_disconnect}
use tst.Http.Types.{Request}
use tst.Http.Query.{check_all, c_str, parse, get}
use tst.Http.Response.{Response}

-- The response that the constructor zeroes, with what the routes set.
abbrev pub plain : Request → ℕ → Bytes → Option Bytes → Response
plain q code text html = record {
  http_version = q.http_version;
  http_code = code;
  response_text = text;
  http_headers = [];
  html_text = html;
}

-- A parameter of the query, all of them cleaned.
unfoldable pub parameter : Request → Bytes → Bytes
unfolding parse get c_str
parameter q name = get name (parse check_all (c_str q.query_string) [])

unfoldable pub is_given : Request → Bytes → Bool
unfolding parameter
is_given q name = not (length (parameter q name) == 0)

-- `http_dtmf` and `http_transfer` differ in the second parameter that they want.
unfoldable pub http_pair : Bytes → Request → Response × Stat
unfolding is_given
http_pair second q =
    if is_given q (codes "caller") && is_given q second
    then (plain q 200 (codes "test") (some (codes "test")), tst_disconnect)
    else (plain q 400 (codes "syntax error") (some (codes "syntax error")), tst_disconnect)

unfoldable pub http_dtmf : Request → Response × Stat
unfolding http_pair
http_dtmf q = http_pair (codes "dtmf") q

unfoldable pub http_transfer : Request → Response × Stat
unfolding http_pair
http_transfer q = http_pair (codes "callee") q

-- The rule for `id` and `check`.
unfoldable pub is_wrong : Bytes → Bytes → Bool
is_wrong id check =
    ltb (length id) 5
    || ltb (length check) 5
    || not (get_or id 1 0 == get_or check 4 0)
    || not (get_or id 3 0 == get_or check 0 0)

unfoldable pub alive_response : Request → Response
unfolding is_given is_wrong parameter
alive_response q =
    if is_given q (codes "id") && is_given q (codes "check")
    then if is_wrong (parameter q (codes "id")) (parameter q (codes "check"))
      then plain q 404 (codes "syntax error") (some (codes "syntax error"))
      else plain q 200 (codes "OK") none
    else plain q 404 (codes "Not found") (some (codes "Not found"))

-- Only a 200 keeps the connection.
unfoldable pub http_alive : Request → Response × Stat
unfolding alive_response
http_alive q =
    let r = alive_response q in (r, if r.http_code == 200 then tst_suspend else tst_disconnect)
