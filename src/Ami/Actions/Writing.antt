-- ===== src/Ami/Actions/Writing.antt =====
-- What an action looks like in the send buffer.
use tst.Common.{
  ◌^◌, All-append, ltb, Bool-cases, take-length_append, append_assoc, drop, take-all, arith, refl,
  sym, ap, ◌∙◌, some, true, [], ◌∷◌, inl, inr, zero, suc, ◌+◌, ◌-◌, ◌/◌, ◌≤◌, ◌≡◌, ◌≢◌, ◌++◌,
  if◌then◌else◌,
}
use tst.Pool.Types.{TstData}
use tst.Http.Query.{c_str}
use tst.Http.Response.{decimal}
use tst.Ami.Events.{get_amivalue}
use tst.Http.Query.Parsing.{Lacks}
use tst.Ami.Event.{AmiResponse, action_response, starts, first_value, success, failure, msg_len}
use tst.Ami.Actions.{
  u32_mod, codes, List, leb, write_at, take, length, ℕ, Bytes, action_tail, write_action, signed,
}

pub c_str-zero : (t rest : Bytes) → Lacks 0 t → c_str (t ++ 0 ∷ rest) ≡ t
unfolding c_str
c_str-zero [] rest clean = refl
c_str-zero (c ∷ cs) rest (ne, clean) = ground (arith, c_str-zero cs rest clean, ne)

c_str_two :
    (text t rest : Bytes) → Lacks 0 text → Lacks 0 t → c_str (text ++ (t ++ 0 ∷ rest)) ≡ text ++ t
unfolding c_str
c_str_two [] t rest clean clean' = c_str-zero t rest clean'
c_str_two (c ∷ cs) t rest (ne, clean) clean' = ground (arith, c_str_two cs t rest clean clean', ne)

-- The memory behind both writes: the text, what follows it, a zero, and a rest.
written_twice :
    (s text t : Bytes) (room : ℕ)
    → length text ≤ room
    → (rest : Bytes) × (write_at
          (write_at s 0 (take room text ++ 0 ∷ []))
          (length text)
          (t ++ 0 ∷ [])
        ≡ text ++ (t ++ 0 ∷ rest))
written_twice s text t room fits =
    let e = take-all text room fits in
    let after = drop (0 + length (text ++ 0 ∷ [])) s in
    let s1 = text ++ (0 ∷ after) in
    let f : write_at s 0 (take room text ++ 0 ∷ []) ≡ s1 =
      ap (λ x. write_at s 0 (x ++ 0 ∷ [])) e ∙ append_assoc text (0 ∷ []) after in
    let rest = drop (length text + length (t ++ 0 ∷ [])) s1 in
    (
      rest,
      ap (λ x. write_at x (length text) (t ++ 0 ∷ [])) f
          ∙ ap (λ x. x ++ ((t ++ 0 ∷ []) ++ rest)) (take-length_append text (0 ∷ after))
          ∙ ap (λ x. text ++ x) (append_assoc t (0 ∷ []) rest),
    )

-- In a buffer as long as it says, an action with no zero byte, of at most the buffer's length less
-- two, is written whole, with what follows it.
pub write_action_fits :
    (d : TstData) (text : Bytes) (id : ℕ)
    → length text ≤ d.s_len - 2
    → length text + length (action_tail id) + 1 ≤ length d.s
    → Lacks 0 text
    → Lacks 0 (action_tail id)
    → (d' : TstData) × (write_action d text id ≡ some d')
      × (take d'.req_len d'.s ≡ text ++ action_tail id)
unfolding write_action
write_action_fits d text id short fits clean clean' =
    let (rest, e) = written_twice d.s text (action_tail id) (d.s_len - 2) short in
    let s2 = text ++ (action_tail id ++ 0 ∷ rest) in
    let f = c_str_two text (action_tail id) rest clean clean' in
    let g : leb (length text + length (action_tail id) + 1) (length d.s) ≡ true =
      ground (arith, fits) in
    let h : s2 ≡ (text ++ action_tail id) ++ (0 ∷ rest) =
      sym (append_assoc text (action_tail id) (0 ∷ rest)) in
    (
      record d { req_len = length (c_str s2); s = s2 },
      rw g (ap (λ x. some (record d { req_len = length (c_str x); s = x })) e),
      ap (λ x. take (length x) s2) f
          ∙ ap (take (length (text ++ action_tail id))) h
          ∙ take-length_append (text ++ action_tail id) (0 ∷ rest),
    )

decimal_clean : (fuel n : ℕ) → Lacks 0 (decimal fuel n)
unfolding decimal
decimal_clean zero n = tt
decimal_clean (suc fuel) n = elim (Bool-cases (ltb n 10)) [
  | inl e ↦ rw e (omega arith, tt)
  | inr e ↦ rw e (
      All-append (λ c. c ≢ 0) (decimal fuel (n / 10)) _ (decimal_clean fuel (n / 10))
        (omega arith, tt))
]

signed_clean : (n : ℕ) → Lacks 0 (signed n)
signed_clean n = elim (Bool-cases (ltb n (2 ^ 31))) [
  | inl e ↦ rw e (decimal_clean 10 n)
  | inr e ↦ rw e (omega arith, decimal_clean 10 (u32_mod - n))
]

pub action_tail_clean : (id : ℕ) → Lacks 0 (action_tail id)
action_tail_clean id =
    All-append (λ c. c ≢ 0) (codes "ActionID: ") (signed id ++ b'\n' ∷ b'\n' ∷ []) (ground arith)
      (All-append (λ c. c ≢ 0) (signed id) (b'\n' ∷ b'\n' ∷ []) (signed_clean id)
        (omega arith, (omega arith, tt)))

-- The response that the caller gets for the records `kvs`.
abbrev pub response_for : AmiResponse → List (Bytes × Bytes) → AmiResponse
response_for r kvs = record r {
  mode = action_response;
  result = some (if starts (first_value kvs) (codes "Success") then success else failure);
  msg = take msg_len (get_amivalue kvs (codes "Message"));
  responses = kvs;
}
