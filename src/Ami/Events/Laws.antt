-- ===== src/Ami/Events/Laws.antt =====
-- The parser against the text form of the records.
use tst.Common.{
  length, All, append_assoc, length-append, arith, append-nil, refl, ap, ◌∙◌, none, some, false, [],
  zero, suc, some, ◌∷◌, ◌≤◌, ◌≡◌, ◌≢◌, ◌++◌, ◌==◌,
}
use tst.Http.Query.{c_str}
use tst.Http.Query.Parsing.{Lacks}
use tst.Ami.Events.{
  put_record, ℕ, List, Bytes, in_key, in_value, begin, extend, scan, parse_amievent,
}

-- Records as the server sends them: `key: value`, CR LF.
unfoldable pub write_records : List (Bytes × Bytes) → Bytes → Bytes
write_records [] after = after
write_records ((k, v) ∷ more) after =
    k ++ b':' ∷ b' ' ∷ (v ++ b'\r' ∷ b'\n' ∷ write_records more after)

abbrev pub IsValue : Bytes → Type 0
IsValue [] = Unit {0}
IsValue (c ∷ cs) = (c ≢ b' ') × Lacks 0 (c ∷ cs) × Lacks b'\r' (c ∷ cs)

abbrev pub IsRecord : Bytes × Bytes → Type 0
IsRecord (k, v) = (k ≢ []) × Lacks 0 k × Lacks b':' k × IsValue v

c_str-append : (k : Bytes) → Lacks 0 k → c_str k ≡ k
unfolding c_str
c_str-append [] h = refl
c_str-append (c ∷ k) h = ground (arith, c_str-append k h.1)

differ : (a b : ℕ) → a ≢ b → (a == b) ≡ false
differ a b h = ground arith

scan_key_step :
    (n : ℕ) (k : Bytes) (c : ℕ) (cs : Bytes)
    → c ≢ 0
    → c ≢ b':'
    → scan n (in_key k) (c ∷ cs) ≡ scan n (in_key (k ++ c ∷ [])) cs
unfolding scan
scan_key_step n k c cs h0 hc = rw (differ c 0 h0, differ c b':' hc, scan) refl

scan_key :
    (n : ℕ) (acc k rest : Bytes)
    → Lacks 0 k
    → Lacks b':' k
    → scan (suc n) (in_key acc) (k ++ b':' ∷ rest)
      ≡ scan (suc n) (in_value (c_str (acc ++ k)) none) rest
unfolding scan
scan_key n acc [] rest h0 hc = rw (append-nil acc) refl
scan_key n acc (c ∷ k) rest h0 hc =
    scan_key_step (suc n) acc c (k ++ b':' ∷ rest) h0.0 hc.0
    ∙ scan_key n (acc ++ c ∷ []) k rest h0.1 hc.1
    ∙ ap (λ key. scan (suc n) (in_value (c_str key) none) rest) (append_assoc acc (c ∷ []) k)

scan_value_step :
    (n : ℕ) (k text : Bytes) (c : ℕ) (cs : Bytes)
    → 2 ≤ length cs
    → c ≢ 0
    → c ≢ b'\r'
    → scan n (in_value k (some text)) (c ∷ cs) ≡ scan n (in_value k (some (text ++ c ∷ []))) cs
unfolding scan begin extend
scan_value_step n k text c [] h h0 hr = absurd (omega arith)
scan_value_step n k text c (d ∷ []) h h0 hr = absurd (omega arith)
scan_value_step n k text c (d ∷ e ∷ rest) h h0 hr = rw (differ c 0 h0, differ c b'\r' hr, scan) refl

scan_value :
    (n : ℕ) (k text v : Bytes) (e : ℕ) (rest : Bytes)
    → Lacks 0 v
    → Lacks b'\r' v
    → scan (suc n) (in_value k (some text)) (v ++ b'\r' ∷ b'\n' ∷ e ∷ rest)
      ≡ put_record (k, text ++ v) (scan n (in_key (e ∷ [])) rest)
unfolding scan begin extend
scan_value n k text [] e rest h0 hr = rw (append-nil text) refl
scan_value n k text (c ∷ v) e rest h0 hr =
    scan_value_step (suc n) k text c _ (omega (arith, length-append v (b'\r' ∷ b'\n' ∷ e ∷ rest)))
      h0.0 hr.0
    ∙ scan_value n k (text ++ c ∷ []) v e rest h0.1 hr.1
    ∙ ap (λ t. put_record (k, t) (scan n (in_key (e ∷ [])) rest)) (append_assoc text (c ∷ []) v)

-- The first byte that is not a blank starts the value.
scan_start :
    (n : ℕ) (k : Bytes) (c : ℕ) (cs : Bytes)
    → 2 ≤ length cs
    → c ≢ b' '
    → scan n (in_value k none) (c ∷ cs) ≡ scan n (in_value k (some [])) (c ∷ cs)
unfolding scan begin extend
scan_start n k c [] h hb = absurd (omega arith)
scan_start n k c (d ∷ []) h hb = absurd (omega arith)
scan_start n k c (d ∷ e ∷ rest) h hb = ground (arith, differ c b' ' hb)

scan_blank :
    (n : ℕ) (k cs : Bytes)
    → 2 ≤ length cs
    → scan n (in_value k none) (b' ' ∷ cs) ≡ scan n (in_value k none) cs
unfolding scan begin extend
scan_blank n k [] h = absurd (omega arith)
scan_blank n k (d ∷ []) h = absurd (omega arith)
scan_blank n k (d ∷ e ∷ rest) h = refl

scan_record :
    (n : ℕ) (k v : Bytes) (e : ℕ) (rest : Bytes)
    → IsValue v
    → scan (suc n) (in_value k none) (b' ' ∷ (v ++ b'\r' ∷ b'\n' ∷ e ∷ rest))
      ≡ put_record (k, v) (scan n (in_key (e ∷ [])) rest)
unfolding scan begin
scan_record n k [] e rest h = refl
scan_record n k (c ∷ v) e rest (hb, h0, hr) =
    let long : 2 ≤ length (v ++ b'\r' ∷ b'\n' ∷ e ∷ rest) =
      omega (arith, length-append v (b'\r' ∷ b'\n' ∷ e ∷ rest)) in
    scan_blank (suc n) k (c ∷ (v ++ b'\r' ∷ b'\n' ∷ e ∷ rest)) (omega arith)
    ∙ scan_start (suc n) k c (v ++ b'\r' ∷ b'\n' ∷ e ∷ rest) long hb
    ∙ scan_value n k [] (c ∷ v) e rest h0 hr

-- From `left`, the part of the key that is not passed over, on.
scan-write_records :
    (n : ℕ) (kvs : List (Bytes × Bytes)) (passed left v junk : Bytes)
    → length kvs ≤ n
    → Lacks 0 (passed ++ left)
    → Lacks 0 left
    → Lacks b':' left
    → IsValue v
    → All IsRecord kvs
    → scan
        (suc n)
        (in_key passed)
        (left ++ b':' ∷ b' ' ∷ (v ++ b'\r' ∷ b'\n' ∷ write_records kvs (b'\r' ∷ b'\n' ∷ 0 ∷ junk)))
      ≡ some ((passed ++ left, v) ∷ kvs)
unfolding write_records scan
scan-write_records n [] passed left v junk few hp h0 hc hv rs =
    scan_key n passed left _ h0 hc
    ∙ scan_record n (c_str (passed ++ left)) v b'\r' (b'\n' ∷ 0 ∷ junk) hv
    ∙ ap (λ k. some ((k, v) ∷ [])) (c_str-append (passed ++ left) hp)
scan-write_records n (([], w) ∷ kvs) passed left v junk few hp h0 hc hv (r, rs) = absurd (r.0 refl)
scan-write_records zero ((c ∷ k, w) ∷ kvs) passed left v junk few hp h0 hc hv rs =
    absurd (omega arith)
scan-write_records (suc n) ((c ∷ k, w) ∷ kvs) passed left v junk few hp h0 hc hv
      ((ne, k0, kc, hw), rs) =
    scan_key (suc n) passed left _ h0 hc
    ∙ scan_record (suc n) (c_str (passed ++ left)) v c _ hv
    ∙ (λ i.
        put_record (c_str-append (passed ++ left) hp i, v)
          (scan-write_records n kvs (c ∷ []) k w junk (omega arith) k0 k0.1 kc.1 hw rs i))

-- At most 100 records, whose keys are not empty and hold no colon, whose values do not start with
-- a blank and hold no CR, and which hold no 0, written as the server does and ended by an empty
-- line, are read back as they are, whatever the memory holds behind the terminating 0.
pub parse_amievent-write_records :
    (kvs : List (Bytes × Bytes)) (junk : Bytes)
    → length kvs ≤ 100
    → All IsRecord kvs
    → parse_amievent (write_records kvs (b'\r' ∷ b'\n' ∷ 0 ∷ junk)) ≡ some kvs
unfolding parse_amievent write_records scan
parse_amievent-write_records [] junk few h = refl
parse_amievent-write_records ((k, v) ∷ kvs) junk few ((ne, k0, kc, hv), rs) =
    scan-write_records 99 kvs [] k v junk (omega arith) k0 k0 kc hv rs
