-- ===== src/Ami/Login/Dialogue.antt =====
-- The dialogue with a manager interface that accepts the login.
use tst.Common.{
  arith, refl, sym, ap, ◌∙◌, none, some, true, false, [], ◌∷◌, zero, suc, ◌+◌, ◌-◌, ◌%◌, ◌≤◌, ◌<◌,
  ◌≡◌, ◌++◌, All, append_assoc, length-append, length-replicate, take-length_append, replicate,
}
use tst.Pool.Types.{TstData, u32_mod, reset_data}
use tst.Pool.State.{Pool}
use tst.Pool.Setup.{SetupCall, ConnectIo, TcpResult, tcp_ok, tcp_connect}
use tst.Http.Query.{equal}
use tst.Ami.Events.{parse_amievent}
use tst.Ami.Events.Laws.{write_records, IsRecord, parse_amievent-write_records}
use tst.Ami.Event.{AmiManage, starts}
use tst.Ami.Login.{
  write_at, take, drop, length, Bytes, Option, List, ℕ, codes, get_elem?, Login, going, logged_in,
  LoginIo, read_all, greeting, login_text, send_login, judge_login, hear_answer, login_round,
  login_loop, line_ended, connected_login, login_end, new_login, join_pool, returned, ami_login,
  buf_len,
}

-- What the first `read` into a buffer that holds nothing leaves there.
filled : TstData → Bytes → TstData
filled d chunk = record d { com_len = length chunk; s = chunk ++ drop (length chunk) d.s }

read_all_first :
    (d : TstData) (chunk : Bytes)
    → d.com_len ≡ 0
    → length chunk ≤ length d.s
    → length chunk < u32_mod
    → read_all d (some chunk) ≡ some (filled d chunk)
unfolding read_all filled
read_all_first d chunk empty fits small = ground (arith, empty, fits, small)

take_append_le : (n : ℕ) (xs ys : Bytes) → n ≤ length xs → take n (xs ++ ys) ≡ take n xs
take_append_le zero xs ys h = refl
take_append_le (suc n) [] ys h = absurd (omega arith)
take_append_le (suc n) (x ∷ xs) ys h = ap (◌∷◌ x) (take_append_le n xs ys (omega arith))

starts-append :
    (text more front : Bytes)
    → length front ≤ length text
    → starts (text ++ more) front ≡ starts text front
unfolding starts
starts-append text more front h =
    ap (λ t. equal t front) (take_append_le (length front) text more h)

-- The greeting is answered with the login.
round_greeted :
    (io : LoginIo) (l : Login) (d : TstData) (greet : Bytes)
    → l.connected ≡ false
    → 22 ≤ length greet
    → starts greet greeting ≡ true
    → let id = (l.actionid + 1) % u32_mod in
      let text = login_text io id in
      io.write text ≡ some (length text)
      → login_round io (record l { recv = filled d greet })
        ≡ going (record {
          connected = true;
          retry = 100;
          recv = reset_data (filled d greet);
          send = record l.send {
            req_len = length text;
            com_len = length text;
            s = write_at l.send.s 0 (text ++ 0 ∷ []);
          };
          actionid = id;
        })
unfolding login_round send_login filled
round_greeted io l d greet off long front wrote =
    let seen = starts-append greet (drop (length greet) d.s) greeting long ∙ front in
    ground (arith, off, long, seen, wrote)

get_elem?-append :
    (front : Bytes) (c : ℕ) (rest : Bytes) → get_elem? (front ++ c ∷ rest) (length front) ≡ some c
get_elem?-append [] c rest = refl
get_elem?-append (x ∷ front) c rest = get_elem?-append front c rest

write_records-append :
    (kvs : List (Bytes × Bytes)) (after more : Bytes)
    → write_records kvs (after ++ more) ≡ write_records kvs after ++ more
unfolding write_records
write_records-append [] after more = refl
write_records-append ((k, v) ∷ kvs) after more =
    simp (append_assoc, write_records-append kvs after more)

abbrev crlf : Bytes
crlf = b'\r' ∷ b'\n' ∷ []

-- The records of a message with the empty line that ends it.
abbrev pub message : List (Bytes × Bytes) → Bytes
message kvs = write_records kvs crlf

line_ended_lem :
    (d : TstData) (front rest : Bytes)
    → d.com_len ≡ length front + 2
    → d.s ≡ front ++ b'\r' ∷ b'\n' ∷ rest
    → line_ended d ≡ some true
line_ended_lem d front rest len text =
    let a : get_elem? d.s (d.com_len - 2) ≡ some b'\r' =
      ap (λ s. get_elem? s (d.com_len - 2)) text
      ∙ ap (get_elem? (front ++ b'\r' ∷ b'\n' ∷ rest))
          (let e : d.com_len - 2 ≡ length front = omega arith in e)
      ∙ get_elem?-append front b'\r' (b'\n' ∷ rest) in
    let regroup : front ++ b'\r' ∷ b'\n' ∷ rest ≡ (front ++ b'\r' ∷ []) ++ b'\n' ∷ rest =
      sym (append_assoc front (b'\r' ∷ []) (b'\n' ∷ rest)) in
    let b : get_elem? d.s (d.com_len - 1) ≡ some b'\n' =
      ap (λ s. get_elem? s (d.com_len - 1)) (text ∙ regroup)
      ∙ ap (get_elem? ((front ++ b'\r' ∷ []) ++ b'\n' ∷ rest)) (
          let e : d.com_len - 1 ≡ length (front ++ b'\r' ∷ []) =
            omega (arith, length-append {0} front (b'\r' ∷ [])) in
          e)
      ∙ get_elem?-append (front ++ b'\r' ∷ []) b'\n' rest in
    ground (arith, a, b)

judge_success :
    (l : Login) (v : Bytes) (kvs : List (Bytes × Bytes))
    → starts v (codes "Success") ≡ true
    → judge_login l ((codes "Response", v) ∷ kvs) ≡ logged_in l
unfolding judge_login
judge_success l v kvs success = rw (success, judge_login) refl

hear_answer_read :
    (io : LoginIo) (l : Login) (records : List (Bytes × Bytes))
    → line_ended l.recv ≡ some true
    → parse_amievent (take l.recv.com_len l.recv.s ++ drop l.recv.com_len io.stack) ≡ some records
    → hear_answer io l ≡ judge_login (record l { recv = reset_data l.recv }) records
unfolding hear_answer
hear_answer_read io l records ended read = rw (ended, hear_answer) (rw read refl)

login_round_heard :
    (io : LoginIo) (l : Login)
    → l.connected ≡ true
    → 22 ≤ l.recv.com_len
    → login_round io l ≡ hear_answer io l
unfolding login_round
login_round_heard io l on long = ground (arith, on, long)

-- The answer to the login, with a 0 behind it in the array for its records.
round_answered :
    (io : LoginIo) (l : Login) (d : TstData) (v : Bytes) (kvs : List (Bytes × Bytes)) (junk : Bytes)
    → let answer = (codes "Response", v) ∷ kvs in
      l.connected ≡ true
      → 22 ≤ length (message answer)
      → length answer ≤ 100
      → All IsRecord answer
      → starts v (codes "Success") ≡ true
      → drop (length (message answer)) io.stack ≡ 0 ∷ junk
      → login_round io (record l { recv = filled d (message answer) })
        ≡ logged_in (record l { recv = reset_data (filled d (message answer)) })
unfolding filled
round_answered io l d v kvs junk on long places records success clean =
    let answer = (codes "Response", v) ∷ kvs in
    let text = message answer in
    let rest = drop (length text) d.s in
    let split : text ≡ write_records answer [] ++ crlf = write_records-append answer [] crlf in
    let ended : line_ended (filled d text) ≡ some true =
      line_ended_lem (filled d text) (write_records answer []) rest
        (ap length split ∙ length-append {0} (write_records answer []) crlf)
        (ap (λ t. t ++ rest) split ∙ append_assoc (write_records answer []) crlf rest) in
    let event : take (length text) (text ++ rest) ++ drop (length text) io.stack
        ≡ write_records answer (b'\r' ∷ b'\n' ∷ 0 ∷ junk) =
      ap (λ t. t ++ drop (length text) io.stack) (take-length_append text rest)
      ∙ ap (λ t. text ++ t) clean
      ∙ sym (write_records-append answer crlf (0 ∷ junk)) in
    let read : parse_amievent (take (length text) (text ++ rest) ++ drop (length text) io.stack)
        ≡ some answer =
      ap parse_amievent event ∙ parse_amievent-write_records answer junk places records in
    let k : Login = record l { recv = filled d text } in
    login_round_heard io k on long
    ∙ hear_answer_read io k answer ended read
    ∙ judge_success (record k { recv = reset_data k.recv }) v kvs success

reset_data-room : (d : TstData) → d.s_len ≤ length (reset_data d).s
unfolding reset_data
reset_data-room d = omega (
  arith,
  length-append {0} (replicate d.s_len 0) (drop d.s_len d.s),
  length-replicate {A = ℕ} d.s_len 0,
)

login_loop_going :
    (io : LoginIo) (l l' : Login) (d : TstData) (chunk : Bytes) (chunks : List (Option Bytes))
    → read_all l.recv (some chunk) ≡ some d
    → login_round io (record l { recv = d }) ≡ going l'
    → login_loop io l (some chunk ∷ chunks) ≡ login_loop io l' chunks
unfolding login_loop
login_loop_going io l l' d chunk chunks e f = rw (e, login_loop) (rw (f, login_loop) refl)

login_loop_done :
    (io : LoginIo) (l l' : Login) (d : TstData) (chunk : Bytes) (chunks : List (Option Bytes))
    → read_all l.recv (some chunk) ≡ some d
    → login_round io (record l { recv = d }) ≡ logged_in l'
    → login_loop io l (some chunk ∷ chunks) ≡ logged_in l'
unfolding login_loop
login_loop_done io l l' d chunk chunks e f = rw (e, login_loop) (rw (f, login_loop) refl)

-- Let the buffer of a login that begins be empty and as long as it says, the first `read` give a
-- greeting of 22 bytes or more, `write` take all of the login's text, and the second `read` give
-- an answer `Response:` of 22 bytes or more, in records that the parser reads back, whose value
-- starts with `Success`; both fit the buffer, and in the array for the records a 0 stands behind
-- the answer. Then two rounds end in a login.
pub login_loop_success :
    (io : LoginIo) (l : Login) (greet v : Bytes) (kvs : List (Bytes × Bytes)) (junk : Bytes)
    → let answer = (codes "Response", v) ∷ kvs in
      let id = (l.actionid + 1) % u32_mod in
      l.connected ≡ false
      → l.recv.com_len ≡ 0
      → length l.recv.s ≡ l.recv.s_len
      → l.recv.s_len < u32_mod
      → 22 ≤ length greet
      → length greet ≤ l.recv.s_len
      → starts greet greeting ≡ true
      → io.write (login_text io id) ≡ some (length (login_text io id))
      → 22 ≤ length (message answer)
      → length (message answer) ≤ l.recv.s_len
      → length answer ≤ 100
      → All IsRecord answer
      → starts v (codes "Success") ≡ true
      → drop (length (message answer)) io.stack ≡ 0 ∷ junk
      → (l' : Login) × (login_loop io l (some greet ∷ some (message answer) ∷ []) ≡ logged_in l')
        × (l'.connected ≡ true)
        × (l'.actionid ≡ id)
        × (l'.recv.com_len ≡ 0)
unfolding filled reset_data
login_loop_success io l greet v kvs junk off empty size small long fits front wrote long' fits'
      places records success clean =
    let answer = (codes "Response", v) ∷ kvs in
    let id = (l.actionid + 1) % u32_mod in
    let text = login_text io id in
    let d : TstData = reset_data (filled l.recv greet) in
    let l1 : Login = record {
      connected = true;
      retry = 100;
      recv = d;
      send = record l.send {
        req_len = length text;
        com_len = length text;
        s = write_at l.send.s 0 (text ++ 0 ∷ []);
      };
      actionid = id;
    } in
    let e1 = read_all_first l.recv greet empty (omega arith) (omega arith) in
    let f1 = round_greeted io l l.recv greet off long front wrote in
    let room = reset_data-room (filled l.recv greet) in
    let e2 = read_all_first d (message answer) refl (omega arith) (omega arith) in
    let f2 = round_answered io l1 d v kvs junk refl long' places records success clean in
    (
      record l1 { recv = reset_data (filled d (message answer)) },
      login_loop_going io l l1 (filled l.recv greet) greet (some (message answer) ∷ []) e1 f1
          ∙ login_loop_done io l1 _ (filled d (message answer)) (message answer) [] e2 f2,
      refl,
      refl,
      refl,
    )

login_end_success :
    {G : Type 0} (p : Pool AmiManage G) (a fd : ℕ) (r : TcpResult) (calls : List SetupCall)
    (io : LoginIo) (chunks : List (Option Bytes)) (l : Login)
    → r ≡ tcp_ok (suc fd)
    → login_loop io new_login chunks ≡ logged_in l
    → connected_login p a r calls true io chunks
      ≡ returned (join_pool p a (suc fd) l) (some a) calls
unfolding connected_login login_end
login_end_success p a fd r calls io chunks l ok e =
    ap (λ x. connected_login p a x calls true io chunks) ok ∙ (rw (e, login_end) refl)

-- Let `ami_socket` be null, `tcp_connect` succeed and `select` find the connection readable, the
-- first `read` give a greeting of 22 bytes or more, `write` take all of the login's text, and the
-- second `read` give an answer `Response:` of 22 bytes or more, in records that the parser reads
-- back, at most 100, whose value starts with `Success`; both fit the buffer of 4096 bytes, and in
-- the array for the records a 0 stands behind the answer. Then `amiLogin` returns with a new
-- object in the pool's map and under epoll, which `ami_socket` holds, and the number of its last
-- action is 1.
pub ami_login_success :
    {G : Type 0} (p : Pool AmiManage G) (connect : ConnectIo) (io : LoginIo) (greet v : Bytes)
    (kvs : List (Bytes × Bytes)) (junk : Bytes) (fd : ℕ)
    → let answer = (codes "Response", v) ∷ kvs in
      let a = p.next_address in
      (tcp_connect connect).0 ≡ tcp_ok (suc fd)
      → 22 ≤ length greet
      → length greet ≤ buf_len
      → starts greet greeting ≡ true
      → io.write (login_text io 1) ≡ some (length (login_text io 1))
      → 22 ≤ length (message answer)
      → length (message answer) ≤ buf_len
      → length answer ≤ 100
      → All IsRecord answer
      → starts v (codes "Success") ≡ true
      → drop (length (message answer)) io.stack ≡ 0 ∷ junk
      → (l : Login) × (ami_login p none connect true io (some greet ∷ some (message answer) ∷ [])
          ≡ returned
              (join_pool (record p { next_address = suc a }) a (suc fd) l)
              (some a)
              (tcp_connect connect).1)
        × (l.actionid ≡ 1)
unfolding ami_login new_login
ami_login_success p connect io greet v kvs junk fd ok long fits front wrote long' fits' places
      records success clean =
    let (l, e, on, id, empty) =
      login_loop_success io new_login greet v kvs junk refl refl
        (length-replicate {A = ℕ} buf_len 0) (omega arith) long fits front wrote long' fits' places
        records success clean in
    (
      l,
      login_end_success (record p { next_address = suc p.next_address }) p.next_address fd
          (tcp_connect connect).0 (tcp_connect connect).1 io _ l ok e,
      id,
    )
