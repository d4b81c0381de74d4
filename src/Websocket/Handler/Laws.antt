-- ===== src/Websocket/Handler/Laws.antt =====
-- The handler on a short masked frame that is there as a whole, and on one whose data is not.
use tst.Common.{
  drop, drop-replicate, sym, drop-length_append, take-length_append, All, Bool, take-all, replicate,
  ap, subst, ◌∙◌, none, false, suc, ◌-◌, ◌≢◌, ◌==◌, if◌then◌else◌, le→ltb, take-length, lt→ltb,
  length, arith, Bytes, bit_and, Option, List, ℕ, refl, some, true, [], ◌∷◌, ◌+◌, ◌%◌, ◌^◌, ◌≤◌,
  ◌<◌, ◌≡◌, ◌++◌,
}
use tst.Common.Tables.{all_below, agree_below}
use tst.Pool.Types.{tst_suspend, Socket, TstData, reset_data}
use tst.Http.Types.{User, WsInfo, ws_base}
use tst.Websocket.Frames.{unmask}
use tst.Websocket.Frames.Mask.{IsByte, unmask-unmask, length-unmask}
use tst.Websocket.Receive.{read_on, read_if, extended, parsed, read_header, grow, read_data, decode}
use tst.Websocket.Handler.{
  Outcome, Handlers, is_sub, is_run, reset_ws, deliver, receive_frame, websocket,
}

low_seven : (n : ℕ) → n < 128 → bit_and (128 + n) 127 ≡ n
unfolding all_below
low_seven = agree_below 128 (λ n. bit_and (128 + n) 127) (λ n. n) refl

top_bit : (n : ℕ) → n < 128 → bit_and (128 + n) 128 ≡ 128
unfolding all_below
top_bit = agree_below 128 (λ n. bit_and (128 + n) 128) (λ n. 128) refl

-- The header of a masked frame of fewer than 126 bytes, and the four bytes of its mask.
read_header_short :
    (ws : WsInfo) (d : TstData) (more : List (Option Bytes)) (first len m0 m1 m2 m3 : ℕ)
    → len < 126
    → (seen : TstData) × (read_header ws d
          (some (first ∷ (128 + len) ∷ []) ∷ some (m0 ∷ m1 ∷ m2 ∷ m3 ∷ []) ∷ more)
        ≡ some (parsed ws (first ∷ (128 + len) ∷ []) len (m0 ∷ m1 ∷ m2 ∷ m3 ∷ []), seen, more))
      × (seen.s_len ≡ d.s_len)
unfolding read_header read_on read_if extended parsed
read_header_short ws d more first len m0 m1 m2 m3 h =
    rw (low_seven len (omega arith), top_bit len (omega arith), lt→ltb len 126 h, read_header)
      (_, refl, refl)

-- The data of a frame, read at once: it fills the front of the buffer, before zeroes.
read_data_all :
    (d : TstData) (payload : Bytes) (more : List (Option Bytes))
    → length payload ≤ d.s_len
    → d.s_len < 2 ^ 32
    → (got : TstData) × (tail : Bytes) × (read_data d (length payload) (some payload ∷ more)
        ≡ (got, true))
      × (got.s ≡ payload ++ (replicate (d.s_len - length payload) 0 ++ tail))
      × (got.s_len ≡ d.s_len)
unfolding read_data read_on reset_data
read_data_all d payload more h k =
    let whole : (0 + length payload) % 2 ^ 32 ≡ length payload = omega arith in
    let start : 0 + length payload ≡ length payload = omega arith in
    let behind : drop (0 + length payload) (replicate d.s_len 0 ++ drop d.s_len d.s)
        ≡ replicate (d.s_len - length payload) 0 ++ drop d.s_len d.s =
      ap (λ n. drop n (replicate d.s_len 0 ++ drop d.s_len d.s)) start
      ∙ drop-replicate (length payload) d.s_len 0 (drop d.s_len d.s) h in
    rw
      (
        take-length payload,
        whole,
        le→ltb (length payload) (length payload) (omega arith),
        read_data,
      )
      (_, drop d.s_len d.s, refl, ap (λ x. payload ++ x) behind, refl)

-- The data of a frame, read in part: the rest is asked for.
read_data_part :
    (d : TstData) (front more_bytes : Bytes) (more : List (Option Bytes))
    → length front + length more_bytes < 2 ^ 32
    → more_bytes ≢ []
    → (got : TstData) × (tail : Bytes) × (read_data d
          (length front + length more_bytes)
          (some front ∷ more)
        ≡ (got, false))
      × (got.s ≡ front ++ tail)
      × (got.req_pos ≡ length front)
      × (got.req_len ≡ length more_bytes)
      × (got.com_len ≡ 0)
unfolding read_data read_on reset_data
read_data_part d front [] more h ne = absurd (ne refl)
read_data_part d front (b ∷ bs) more h ne =
    let whole : (0 + length front) % 2 ^ 32 ≡ length front = omega arith in
    rw
      (
        take-all front (length front + suc (length bs)) (omega arith),
        whole,
        lt→ltb (length front) (length front + suc (length bs)) (omega arith),
        read_data,
      )
      (_, _, refl, refl, refl, omega arith, refl)

-- The frame's data is still under way: `read` says -1, which stands for a full count.
read_data-none :
    (d : TstData) (len : ℕ) (more : List (Option Bytes))
    → len < 2 ^ 32
    → (got : TstData) × (tail : Bytes) × (read_data d len (none ∷ more) ≡ (got, true))
      × (got.s ≡ replicate d.s_len 0 ++ tail)
unfolding read_data read_on reset_data
read_data-none d len more h =
    rw (le→ltb ((0 + (2 ^ 32 - 1)) % 2 ^ 32) len (omega arith), read_data) (_, _, refl, refl)

-- What a handler is called with, and what follows the call.
abbrev pub call_handler : {G : Type 0} → Handlers G → Socket User → WsInfo → TstData → G → Outcome G
call_handler handlers k ws shown g =
    let called =
      handlers ws.websocket_func (record k { recv = some shown; user_data = some (ws_base ws) })
        g in
    if is_run called.stat then called else record called { socket = reset_ws called.socket }

-- A connection that waits for a frame, with its buffer and its handler.
pub record IsWaiting (k : Socket User) (d : TstData) (ws : WsInfo) : Type 0 where
  pub upgraded : is_sub k.type ≡ false
  pub buffer : k.recv ≡ some d
  pub info : k.user_data ≡ some (ws_base ws)
  pub fresh : (ws.step == 0) ≡ true
  pub handled : (ws.websocket_func == 0) ≡ false
  pub sized : d.s_len < 2 ^ 32

-- `receive_frame`, once the header is read and the buffer has the room.
receive_frame_lem :
    {G : Type 0} (handlers : Handlers G) (realloc : ℕ → Option Bytes)
    (answers left : List (Option Bytes)) (k : Socket User) (ws header : WsInfo)
    (d seen got : TstData) (g : G) (whole : Bool)
    → read_header ws d answers ≡ some (header, seen, left)
    → header.data_len ≤ seen.s_len
    → read_data seen header.data_len left ≡ (got, whole)
    → receive_frame handlers realloc answers k ws d g ≡ (
        if whole then deliver handlers k header got g else record {
          socket = record k { recv = some got; user_data = some (ws_base header) };
          shared = g;
          writes = [];
          stat = tst_suspend;
        })
unfolding receive_frame grow
receive_frame_lem handlers realloc answers left k ws header d seen got g whole e fits r =
    rw (e, le→ltb seen.s_len header.data_len fits, r, receive_frame) refl

websocket-receive_frame :
    {G : Type 0} (routes : List (Bytes × ℕ)) (notice : Bytes → Bytes) (handlers : Handlers G)
    (realloc : ℕ → Option Bytes) (answers : List (Option Bytes)) (k : Socket User) (d : TstData)
    (ws : WsInfo) (g : G)
    → IsWaiting k d ws
    → websocket routes notice handlers realloc answers k g
      ≡ receive_frame handlers realloc answers k ws d g
unfolding websocket
websocket-receive_frame routes notice handlers realloc answers k d ws g w =
    simp (w.buffer, w.info, w.upgraded, w.fresh, websocket)

deliver-call_handler :
    {G : Type 0} (handlers : Handlers G) (k : Socket User) (ws : WsInfo) (d : TstData) (g : G)
    → (ws.websocket_func == 0) ≡ false
    → deliver handlers k ws d g ≡ call_handler handlers k ws (decode ws d) g
unfolding deliver
deliver-call_handler handlers k ws d g h = simp (h, deliver)

-- What was masked stands unmasked at the front of the buffer.
decode-unmask :
    (ws : WsInfo) (d : TstData) (first : ℕ) (mask text tail : Bytes)
    → All IsByte mask
    → All IsByte text
    → length text < 126
    → d.s ≡ unmask mask 0 text ++ tail
    → (decode (parsed ws (first ∷ (128 + length text) ∷ []) (length text) mask) d).s ≡ text ++ tail
unfolding decode parsed
decode-unmask ws d first mask text tail hm ht short e = rw (top_bit (length text) (omega arith)) (
    rw (e) (
      rw⁻¹ (length-unmask mask 0 text) (
        rw
          (
            take-length_append (unmask mask 0 text) tail,
            drop-length_append (unmask mask 0 text) tail,
          )
          (ap (λ x. x ++ tail) (unmask-unmask mask 0 text hm ht)))))

s_len-decode : (ws : WsInfo) (d : TstData) → (decode ws d).s_len ≡ d.s_len
unfolding decode
s_len-decode ws d = ground arith

-- A masked frame of fewer than 126 bytes, on a waiting connection whose buffer has the room, all
-- of it there to be read: the handler is called with the bytes that the client masked at the front
-- of the buffer, and the buffer and the frame's fields are reset behind it unless it returns
-- `tst_run`.
pub websocket-message :
    {G : Type 0} (routes : List (Bytes × ℕ)) (notice : Bytes → Bytes) (handlers : Handlers G)
    (realloc : ℕ → Option Bytes) (k : Socket User) (d : TstData) (ws : WsInfo) (g : G)
    (more : List (Option Bytes)) (first m0 m1 m2 m3 : ℕ) (text : Bytes)
    → IsWaiting k d ws
    → All IsByte (m0 ∷ m1 ∷ m2 ∷ m3 ∷ [])
    → All IsByte text
    → length text < 126
    → length text ≤ d.s_len
    → (shown : TstData) × (tail : Bytes) × (websocket routes notice handlers realloc
          (some (first ∷ (128 + length text) ∷ [])
            ∷ some (m0 ∷ m1 ∷ m2 ∷ m3 ∷ [])
            ∷ some (unmask (m0 ∷ m1 ∷ m2 ∷ m3 ∷ []) 0 text)
            ∷ more)
          k
          g
        ≡ call_handler handlers k
            (parsed ws (first ∷ (128 + length text) ∷ []) (length text) (m0 ∷ m1 ∷ m2 ∷ m3 ∷ []))
            shown
            g)
      × (shown.s ≡ text ++ (replicate (d.s_len - length text) 0 ++ tail))
      × (shown.s_len ≡ d.s_len)
unfolding parsed
websocket-message routes notice handlers realloc k d ws g more first m0 m1 m2 m3 text w hm ht short
      fits =
    let mask : Bytes = m0 ∷ m1 ∷ m2 ∷ m3 ∷ [] in
    let payload = unmask mask 0 text in
    let same : length payload ≡ length text = length-unmask mask 0 text in
    let (seen, e, sized) =
      read_header_short ws d (some payload ∷ more) first (length text) m0 m1 m2 m3 short in
    let (got, tail, r, front, kept) =
      read_data_all seen payload more (omega arith) (let bound = w.sized in omega arith) in
    let header = parsed ws (first ∷ (128 + length text) ∷ []) (length text) mask in
    (
      decode header got,
      tail,
      websocket-receive_frame routes notice handlers realloc _ k d ws g w
          ∙ receive_frame_lem handlers realloc _ _ k ws header d seen got g true e (omega arith)
              (subst (λ n. read_data seen n (some payload ∷ more) ≡ (got, true)) same r)
          ∙ deliver-call_handler handlers k header got g w.handled,
      decode-unmask ws got first mask text (replicate (d.s_len - length text) 0 ++ tail) hm ht short
          (subst (λ n. got.s ≡ payload ++ (replicate (n - length text) 0 ++ tail)) sized
            (subst (λ n. got.s ≡ payload ++ (replicate (seen.s_len - n) 0 ++ tail)) same front)),
      s_len-decode header got ∙ kept ∙ sized,
    )

-- Of a masked frame of fewer than 126 bytes, on a waiting connection whose buffer has the room, of
-- which the last bytes are not there yet, the handler hears nothing: the bytes that are there
-- stand at the front of the buffer, and `recv` asks for exactly the missing ones behind them.
pub websocket_partial :
    {G : Type 0} (routes : List (Bytes × ℕ)) (notice : Bytes → Bytes) (handlers : Handlers G)
    (realloc : ℕ → Option Bytes) (k : Socket User) (d : TstData) (ws : WsInfo) (g : G)
    (more : List (Option Bytes)) (first m0 m1 m2 m3 len : ℕ) (front missing : Bytes)
    → IsWaiting k d ws
    → len ≡ length front + length missing
    → len < 126
    → len ≤ d.s_len
    → missing ≢ []
    → (got : TstData) × (tail : Bytes) × (websocket routes notice handlers realloc
          (some (first ∷ (128 + len) ∷ []) ∷ some (m0 ∷ m1 ∷ m2 ∷ m3 ∷ []) ∷ some front ∷ more)
          k
          g
        ≡ record {
          socket = record k {
            recv = some got;
            user_data =
                some (ws_base (parsed ws (first ∷ (128 + len) ∷ []) len (m0 ∷ m1 ∷ m2 ∷ m3 ∷ [])));
          };
          shared = g;
          writes = [];
          stat = tst_suspend;
        })
      × (got.s ≡ front ++ tail)
      × (got.req_pos ≡ length front)
      × (got.req_len ≡ length missing)
      × (got.com_len ≡ 0)
unfolding parsed
websocket_partial routes notice handlers realloc k d ws g more first m0 m1 m2 m3 len front missing w
      same short fits ne =
    let mask : Bytes = m0 ∷ m1 ∷ m2 ∷ m3 ∷ [] in
    let (seen, e, sized) = read_header_short ws d (some front ∷ more) first len m0 m1 m2 m3 short in
    let (got, tail, r, front_first, at, asked, none_yet) =
      read_data_part seen front missing more (omega arith) ne in
    let header = parsed ws (first ∷ (128 + len) ∷ []) len mask in
    (
      got,
      tail,
      websocket-receive_frame routes notice handlers realloc _ k d ws g w
          ∙ receive_frame_lem handlers realloc _ _ k ws header d seen got g false e (omega arith)
              (subst (λ n. read_data seen n (some front ∷ more) ≡ (got, false)) (sym same) r),
      front_first,
      at,
      asked,
      none_yet,
    )

-- When the header and the mask of a masked frame of fewer than 126 bytes are there and its data is
-- not, so that `read` answers -1, on a waiting connection whose buffer has the room, the handler
-- is called all the same, on what unmasking makes of a buffer that starts with `s_len` zeroes.
pub websocket_unread :
    {G : Type 0} (routes : List (Bytes × ℕ)) (notice : Bytes → Bytes) (handlers : Handlers G)
    (realloc : ℕ → Option Bytes) (k : Socket User) (d : TstData) (ws : WsInfo) (g : G)
    (more : List (Option Bytes)) (first m0 m1 m2 m3 len : ℕ)
    → IsWaiting k d ws
    → len < 126
    → len ≤ d.s_len
    → (got : TstData) × (tail : Bytes) × (websocket routes notice handlers realloc
          (some (first ∷ (128 + len) ∷ []) ∷ some (m0 ∷ m1 ∷ m2 ∷ m3 ∷ []) ∷ none ∷ more)
          k
          g
        ≡ call_handler handlers k
            (parsed ws (first ∷ (128 + len) ∷ []) len (m0 ∷ m1 ∷ m2 ∷ m3 ∷ []))
            (decode (parsed ws (first ∷ (128 + len) ∷ []) len (m0 ∷ m1 ∷ m2 ∷ m3 ∷ [])) got)
            g)
      × (got.s ≡ replicate d.s_len 0 ++ tail)
unfolding parsed
websocket_unread routes notice handlers realloc k d ws g more first m0 m1 m2 m3 len w short fits =
    let mask : Bytes = m0 ∷ m1 ∷ m2 ∷ m3 ∷ [] in
    let (seen, e, sized) = read_header_short ws d (none ∷ more) first len m0 m1 m2 m3 short in
    let (got, tail, r, zeroes) = read_data-none seen len more (omega arith) in
    let header = parsed ws (first ∷ (128 + len) ∷ []) len mask in
    (
      got,
      tail,
      websocket-receive_frame routes notice handlers realloc _ k d ws g w
          ∙ receive_frame_lem handlers realloc _ _ k ws header d seen got g true e (omega arith) r
          ∙ deliver-call_handler handlers k header got g w.handled,
      subst (λ n. got.s ≡ replicate n 0 ++ tail) sized zeroes,
    )
