-- ===== src/Ami/Message.antt =====
-- amiproc/amiproc.cpp, `ami_event`: the loop that reads a message, a byte at a time, up to the empty
-- line that ends it, so that the next message stays with the kernel.
pub mod Laws
use tst.Common.{
  get_or, ltb, not, List, min, set, Option, ℕ, Bool, refl, sym, ap, subst, ◌∙◌, none, some, true,
  false, [], ◌∷◌, inl, inr, zero, suc, ◌+◌, ◌-◌, ◌*◌, ◌/◌, ◌%◌, ◌^◌, ◌≤◌, ◌<◌, ◌≡◌, ◌≢◌, ◌↔◌, ◌⊎◌,
  ◌++◌, ◌==◌, if◌then◌else◌, ◌&&◌, ◌||◌,
}
use tst.Pool.Types.{TstData, u32_mod}

-- The last four bytes of what is done are CR LF CR LF.
unfoldable pub is_ended : TstData → Bool
is_ended d =
    not (ltb d.com_len 4)
    && get_or d.s (d.com_len - 4) 0 == b'\r'
    && get_or d.s (d.com_len - 3) 0 == b'\n'
    && get_or d.s (d.com_len - 2) 0 == b'\r'
    && get_or d.s (d.com_len - 1) 0 == b'\n'

-- `rdata.com_len += read(sd, rdata.s + rdata.com_len, 1)`: a byte, none at the end, or -1.
unfoldable pub store_byte : TstData → Option (Option ℕ) → TstData
store_byte d none = record d { com_len = (d.com_len + (u32_mod - 1)) % u32_mod }
store_byte d (some none) = d
store_byte d (some (some b)) = record d {
  com_len = (d.com_len + 1) % u32_mod;
  s = set d.s d.com_len b;
}

-- At most `remain` bytes; the answers of `read` in order, and those that are left.
unfoldable pub read_message :
    ℕ → TstData → List (Option (Option ℕ)) → TstData × List (Option (Option ℕ))
unfolding is_ended store_byte
read_message zero d answers = (d, answers)
read_message (suc remain) d answers = elim (is_ended d) [
  | true ↦ (d, answers)
  | false ↦ elim answers [
    | [] ↦ read_message remain (store_byte d none) []
    | a ∷ more ↦ read_message remain (store_byte d a) more
  ]
]

-- The room but for the final 0, or what the `ioctl` found, whichever is less.
unfoldable pub remain_of : TstData → ℕ
remain_of d = min (d.s_len - d.com_len - 1) d.checked_len
