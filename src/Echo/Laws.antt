-- ===== src/Echo/Laws.antt =====
-- What the echo server sends back.
use tst.Common.{
  append-nil, Option, le→ltb, lt→ltb, ltb, length-append, write_at, arith, drop, set, length, ℕ,
  Bytes, refl, ap, ◌∙◌, none, some, true, false, [], ◌∷◌, zero, suc, ◌+◌, ◌-◌, ◌%◌, ◌≤◌, ◌<◌, ◌≡◌,
  ◌++◌,
}
use tst.Pool.Types.{Socket, TstData, tst_suspend, u32_mod, reset_data}
use tst.Http.Query.{c_str}
use tst.Http.Query.Parsing.{Lacks}
use tst.Ami.Actions.Writing.{c_str-zero}
use tst.Echo.{
  minus_one_or, EchoIo, Echoed, received, terminated, send_back, echo_input, echo_events, echo,
}

-- A byte is stored behind a text that the memory has room for.
set-length :
    (chunk rest : Bytes) (b v : ℕ) → set (chunk ++ b ∷ rest) (length chunk) v ≡ chunk ++ v ∷ rest
set-length [] rest b v = refl
set-length (c ∷ cs) rest b v = ap (◌∷◌ c) (set-length cs rest b v)

drop-cons : (n : ℕ) (s : Bytes) → n < length s → (b : ℕ) × (rest : Bytes) × (drop n s ≡ b ∷ rest)
drop-cons n [] lt = absurd (omega arith)
drop-cons zero (b ∷ rest) lt = (b, rest, refl)
drop-cons (suc n) (b ∷ s) lt = drop-cons n s (omega arith)

-- A chunk in an empty buffer, and the zero behind it.
terminated-received :
    (d : TstData) (chunk : Bytes)
    → d.com_len ≡ 0
    → length chunk < length d.s
    → length d.s < u32_mod
    → (d' : TstData) × (rest : Bytes) × (terminated (received d (some chunk)) ≡ some d')
      × (drop d.com_len d'.s ≡ chunk ++ 0 ∷ rest)
terminated-received d chunk empty room small =
    let (b, rest, e) = drop-cons (length chunk) d.s room in
    let n : (d.com_len + length chunk) % u32_mod ≡ length chunk =
      omega (arith, empty, room, small) in
    let f : write_at d.s d.com_len chunk ≡ chunk ++ (b ∷ rest) =
      ap (λ x. write_at d.s x chunk) empty
      ∙ ap (λ x. chunk ++ drop x d.s) (let g : 0 + length chunk ≡ length chunk = omega arith in g)
      ∙ ap (λ x. chunk ++ x) e in
    let g : length (chunk ++ (b ∷ rest)) ≡ length chunk + suc (length rest) =
      length-append chunk (b ∷ rest) in
    let h : ltb (length chunk) (length (chunk ++ (b ∷ rest))) ≡ true = ground (arith, g) in
    let d1 = record d { com_len = length chunk; s = chunk ++ (b ∷ rest) } in
    let e1 : received d (some chunk) ≡ d1 =
      ap (λ x. record d { com_len = x; s = write_at d.s d.com_len chunk }) n
      ∙ ap (λ x. record d { com_len = length chunk; s = x }) f in
    let d2 = record d1 { s = set (chunk ++ (b ∷ rest)) (length chunk) 0 } in
    (
      d2,
      rest,
      ap terminated e1 ∙ rw h refl,
      ap (λ x. drop x d2.s) empty ∙ set-length chunk rest b 0,
    )

drop_end : (n : ℕ) (s : Bytes) → length s ≤ n → drop n s ≡ []
drop_end zero [] le = refl
drop_end zero (b ∷ s) le = absurd (omega arith)
drop_end (suc n) [] le = refl
drop_end (suc n) (b ∷ s) le = drop_end n s (omega arith)

-- A chunk as long as the whole memory fills it.
length-write_at :
    (s chunk : Bytes) → length s ≡ length chunk → length (write_at s 0 chunk) ≡ length chunk
length-write_at s chunk same =
    let e : drop (0 + length chunk) s ≡ [] = drop_end (0 + length chunk) s (omega (arith, same)) in
    ap (λ x. length (chunk ++ x)) e ∙ ap length (append-nil chunk)

send_back-written :
    {U : Type 0} (k : Socket U) (d out : TstData) (text : Bytes) (io : EchoIo)
    → length text < length out.s
    → (e : Echoed U) × (send_back k d out text io ≡ some e)
      × (e.written ≡ text ∷ [])
      × (e.next ≡ tst_suspend)
unfolding send_back
send_back-written k d out text io place =
    let h = lt→ltb (length text) (length out.s) place in
    (
      record {
        socket = record k {
          recv = some (reset_data d);
          send = some (record out {
            req_len = length text;
            com_len = minus_one_or (io.write text);
            s = write_at out.s 0 (text ++ 0 ∷ []);
          });
        };
        written = text ∷ [];
        next = tst_suspend;
      },
      rw h refl,
      refl,
      refl,
    )

module _ {U : Type 0} (k : Socket U) (d out : TstData) (io : EchoIo) (chunk : Bytes) where
  -- The job for a chunk that has come into an empty buffer of the size that it records.
  pub record IsInput : Type 0 where
    pub event : k.events.epollin ≡ true
    pub buffers : (k.recv ≡ some d) × (k.send ≡ some out)
    pub empty : d.com_len ≡ 0
    pub sized : (d.s_len ≡ length d.s) × (d.s_len < u32_mod)
    pub checked : d.checked_len ≡ length chunk
    pub got : io.read ≡ some chunk

  echo-echo_input : IsInput → echo none k io ≡ echo_input k d io
  unfolding echo echo_events
  echo-echo_input i = ground (arith, i.event, i.buffers.0)

  fits_test :
      IsInput
      → length chunk ≤ d.s_len
      → ltb ((d.s_len + (u32_mod - d.com_len)) % u32_mod) d.checked_len ≡ false
  fits_test i le = le→ltb _ d.checked_len (omega (arith, i.empty, i.sized.1, i.checked, le))

  terminated_input :
      IsInput
      → length chunk ≤ d.s_len
      → (o : Option TstData) → terminated (received d (some chunk)) ≡ o
      → echo_input k d io
        ≡ elim o [ none ↦ none | some d' ↦ send_back k d' out (c_str (drop d.com_len d'.s)) io ]
  unfolding echo_input
  terminated_input i le none e = rw (fits_test i le, i.got, echo_input) (rw (e, echo_input) refl)
  terminated_input i le (some d') e =
      rw (fits_test i le, i.got, echo_input)
        (rw (e, echo_input) (rw (i.buffers.1, echo_input) refl))

  -- A chunk with no zero byte that comes into an empty buffer, and is shorter than that buffer and
  -- than the send buffer's memory, is sent back as it is, and the job asks for the next event.
  pub echo_back :
      IsInput
      → length chunk < d.s_len
      → length chunk < length out.s
      → Lacks 0 chunk
      → (e : Echoed U) × (echo none k io ≡ some e)
        × (e.written ≡ chunk ∷ [])
        × (e.next ≡ tst_suspend)
  echo_back i room place clean =
      let (d', rest, e, f) =
        terminated-received d chunk i.empty (omega (arith, room, i.sized.0))
          (omega (arith, i.sized.0, i.sized.1)) in
      let g : c_str (drop d.com_len d'.s) ≡ chunk = ap c_str f ∙ c_str-zero chunk rest clean in
      let (r, w, written, next) = send_back-written k d' out chunk io place in
      (
        r,
        echo-echo_input i
            ∙ terminated_input i (omega (arith, room)) (some d') e
            ∙ ap (λ x. send_back k d' out x io) g
            ∙ w,
        written,
        next,
      )

  -- A chunk as long as the whole empty buffer is taken, and the zero behind it is written behind
  -- the memory.
  echo_full : IsInput → length chunk ≡ d.s_len → echo none k io ≡ none
  echo_full i full =
      let n : (d.com_len + length chunk) % u32_mod ≡ length chunk =
        omega (arith, i.empty, full, i.sized.1) in
      let e : length (write_at d.s d.com_len chunk) ≡ length chunk =
        ap (λ x. length (write_at d.s x chunk)) i.empty
        ∙ length-write_at d.s chunk (omega (arith, full, i.sized.0)) in
      let f : terminated (received d (some chunk)) ≡ none =
        rw
          (le→ltb ((d.com_len + length chunk) % u32_mod) (length (write_at d.s d.com_len chunk))
            (omega (arith, n, e)))
          refl in
      echo-echo_input i ∙ terminated_input i (omega (arith, full)) none f
