-- ===== src/Echo/Farewell/Laws.antt =====
-- The farewell of `main` reaches every connection.
use tst.Common.{
  Bool, All-map, append_assoc, drop, Bool-cases, length-append, write_at, length, lt→ltb, Bytes,
  List, All, ℕ, none, some, true, [], ◌∷◌, ◌++◌, ◌+◌, ◌<◌, ◌≡◌, ◌==◌, arith, refl, sym, ap, ◌∙◌,
  inl, inr,
}
use tst.Pool.Types.{Socket, TstData}
use tst.Pool.State.{Pool, Call, epoll_mod, update, call}
use tst.Pool.Connections.{need_send}
use tst.Echo.Farewell.{farewell, leave_farewell, say_farewell}

-- A connection whose object has a send buffer with room for the text, to be sent from its start.
abbrev pub HasRoom : {U G : Type 0} → Pool U G → Bytes → ℕ × ℕ → Type 0
HasRoom {U} p text (sd, a) =
    (k : Socket U) × (out : TstData) × (p.heap a ≡ some k)
    × (k.send ≡ some out)
    × (k.sd ≡ sd)
    × (out.req_pos ≡ 0)
    × (length text < length out.s)

-- A connection whose object is to send the text, from its first byte on: `auto_send` takes `req_len`
-- bytes, less the `com_len` that are sent, from `req_pos` on.
abbrev pub IsTold : {U G : Type 0} → Pool U G → Bytes → ℕ × ℕ → Type 0
IsTold {U} p text (sd, a) =
    (k : Socket U) × (out : TstData) × (tail : Bytes) × (p.heap a ≡ some k)
    × (k.send ≡ some out)
    × (k.sd ≡ sd)
    × (out.s ≡ text ++ 0 ∷ tail)
    × (out.req_len ≡ length text)
    × (out.com_len ≡ 0)
    × (out.req_pos ≡ 0)

-- The calls for the entries, the newest first.
abbrev pub asked : List (ℕ × ℕ) → List Call → List Call
asked [] calls = calls
asked ((sd, a) ∷ entries) calls = asked entries (epoll_mod sd true ∷ calls)

-- A buffer and an object behind one connection's farewell.
abbrev written_out : TstData → Bytes → TstData
written_out out text = record out {
  req_len = length text;
  com_len = 0;
  s = write_at out.s 0 (text ++ 0 ∷ []);
}

abbrev told_socket : {U : Type 0} → Socket U → TstData → Bytes → Socket U
told_socket k out text = record k { send = some (written_out out text) }

written_out-front :
    (out : TstData) (text : Bytes)
    → (written_out out text).s ≡ text ++ 0 ∷ drop (0 + length (text ++ 0 ∷ [])) out.s
written_out-front out text = append_assoc text (0 ∷ []) _

written_out-room : (out : TstData) (text : Bytes) → length text < length (written_out out text).s
written_out-room out text =
    let front = ap length (written_out-front out text) in
    let whole = length-append text (0 ∷ drop (0 + length (text ++ 0 ∷ [])) out.s) in
    omega (arith, front, whole)

module _ {U G : Type 0} where
  -- The pool behind one connection's farewell.
  abbrev told : Pool U G → ℕ → Socket U → TstData → Bytes → Pool U G
  told p a k out text =
      call (record p { heap = update p.heap a (some (told_socket k out text)) })
        (epoll_mod k.sd true)

  leave_farewell-told :
      (mod_ok : ℕ → Bool) (p : Pool U G) (a : ℕ) (text : Bytes) (k : Socket U) (out : TstData)
      → p.main_thread ≡ true
      → p.main_run ≡ true
      → p.heap a ≡ some k
      → k.send ≡ some out
      → length text < length out.s
      → leave_farewell mod_ok p a text ≡ some (told p a k out text)
  unfolding leave_farewell need_send
  leave_farewell-told mod_ok p a text k out thread running there sends room =
      rw (there, sends, lt→ltb (length text) (length out.s) room, thread, running, leave_farewell)
        refl

  -- The object at the address, and at any other.
  told-hit :
      (p : Pool U G) (a b : ℕ) (text : Bytes) (k j : Socket U) (out : TstData)
      → (a == b) ≡ true
      → p.heap a ≡ some k
      → p.heap b ≡ some j
      → ((told p a k out text).heap b ≡ some (told_socket k out text)) × (k.sd ≡ j.sd)
  told-hit p a b text k j out hit there at =
      let same : a ≡ b = ground arith in
      let one : some k ≡ some j = sym there ∙ ap p.heap same ∙ at in
      (rw (hit) refl, ap (λ o. elim o [ none ↦ 0 | some x ↦ x.sd ]) one)

  told-IsTold :
      (p : Pool U G) (a : ℕ) (text : Bytes) (k : Socket U) (out : TstData) (sd b : ℕ)
      → p.heap a ≡ some k
      → IsTold p text (sd, b)
      → out.req_pos ≡ 0
      → IsTold (told p a k out text) text (sd, b)
  told-IsTold p a text k out sd b there
        (j, o, tail, at, sends, named, front, asked_all, none_yet, at_start) pos =
      elim (Bool-cases (a == b)) [
        | inl hit ↦
            let (h, one) = told-hit p a b text k j out hit there at in
            (_, _, _, h, refl, one ∙ named, written_out-front out text, refl, refl, pos)
        | inr miss ↦ (j, o, tail, ground arith, sends, named, front, asked_all, none_yet, at_start)
      ]

  told-HasRoom :
      (p : Pool U G) (a : ℕ) (text : Bytes) (k : Socket U) (out : TstData) (sd b : ℕ)
      → p.heap a ≡ some k
      → HasRoom p text (sd, b)
      → out.req_pos ≡ 0
      → HasRoom (told p a k out text) text (sd, b)
  told-HasRoom p a text k out sd b there (j, o, at, sends, named, at_start, room) pos =
      elim (Bool-cases (a == b)) [
        | inl hit ↦
            let (h, one) = told-hit p a b text k j out hit there at in
            (_, _, h, refl, one ∙ named, pos, written_out-room out text)
        | inr miss ↦ (j, o, ground arith, sends, named, at_start, room)
      ]

  told-here :
      (p : Pool U G) (a : ℕ) (text : Bytes) (k : Socket U) (out : TstData) (sd : ℕ)
      → k.sd ≡ sd
      → out.req_pos ≡ 0
      → IsTold (told p a k out text) text (sd, a)
  told-here p a text k out sd named pos =
      let self : (a == a) ≡ true = ground arith in
      (
        told_socket k out text,
        written_out out text,
        _,
        rw (self) refl,
        refl,
        named,
        written_out-front out text,
        refl,
        refl,
        pos,
      )

  say_farewell_lem :
      (mod_ok : ℕ → Bool) (p : Pool U G) (entries done : List (ℕ × ℕ)) (i : ℕ)
      → p.main_thread ≡ true
      → p.main_run ≡ true
      → All (HasRoom p (farewell i)) entries
      → All (IsTold p (farewell i)) done
      → (q : Pool U G) × (say_farewell mod_ok p entries i ≡ some q)
        × All (IsTold q (farewell i)) entries
        × All (IsTold q (farewell i)) done
        × (q.calls ≡ asked entries p.calls)
  unfolding say_farewell
  say_farewell_lem mod_ok p [] done i thread running rooms tolds = (p, refl, tt, tolds, refl)
  say_farewell_lem mod_ok p ((sd, a) ∷ entries) done i thread running
        ((k, out, at, sends, named, pos, room), rooms) tolds =
      let text = farewell i in
      let next = told p a k out text in
      let (q, e, now, (here, before), calls) =
        say_farewell_lem mod_ok next entries ((sd, a) ∷ done) i thread running
          (All-map (λ x h. told-HasRoom p a text k out x.0 x.1 at h pos) entries rooms)
          (
            told-here p a text k out sd named pos,
            All-map (λ x h. told-IsTold p a text k out x.0 x.1 at h pos) done tolds,
          ) in
      (
        q,
        rw (leave_farewell-told mod_ok p a text k out thread running at sends room, say_farewell) e,
        (here, now),
        before,
        calls ∙ ap (λ s. asked entries (epoll_mod s true ∷ p.calls)) named,
      )

  -- Let the pool run, and each of the map's objects carry its descriptor and have a send buffer
  -- with more room than the farewell is long, whose `req_pos` is 0, as a reset leaves it. Whatever
  -- `epoll_ctl` says, the farewell is left without a fault in all of them: each object is to send
  -- the text from the start of its buffer, all of it, and epoll is asked to watch each descriptor
  -- for output, in their order.
  pub say_farewell-IsTold :
      (mod_ok : ℕ → Bool) (p : Pool U G) (entries : List (ℕ × ℕ)) (i : ℕ)
      → p.main_thread ≡ true
      → p.main_run ≡ true
      → All (HasRoom p (farewell i)) entries
      → (q : Pool U G) × (say_farewell mod_ok p entries i ≡ some q)
        × All (IsTold q (farewell i)) entries
        × (q.calls ≡ asked entries p.calls)
  say_farewell-IsTold mod_ok p entries i thread running rooms =
      let (q, e, now, before, calls) =
        say_farewell_lem mod_ok p entries [] i thread running rooms tt in
      (q, e, now, calls)
