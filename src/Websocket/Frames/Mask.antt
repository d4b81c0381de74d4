-- ===== src/Websocket/Frames/Mask.antt =====
-- The masking of RFC 6455 is its own inverse, so what the handler shows is what the client masked.
use tst.Common.{
  arith, get_or, All, bit_xor, length, Bytes, ℕ, refl, ap, [], ◌∷◌, zero, suc, ◌%◌, ◌<◌, ◌≡◌,
}
use tst.Common.Tables.{all_below, agree_below_both}
use tst.Websocket.Frames.{unmask}

abbrev pub IsByte : ℕ → Type 0
IsByte b = b < 256

xor_twice : (a m : ℕ) → a < 256 → m < 256 → bit_xor (bit_xor a m) m ≡ a
unfolding all_below
xor_twice = agree_below_both 256 256 (λ a m. bit_xor (bit_xor a m) m) (λ a m. a) refl

get_or-IsByte : (mask : Bytes) (i : ℕ) → All IsByte mask → get_or mask i 0 < 256
get_or-IsByte [] i h = omega arith
get_or-IsByte (m ∷ mask) zero h = h.0
get_or-IsByte (m ∷ mask) (suc i) h = get_or-IsByte mask i h.1

-- For bytes and a mask of bytes, masking twice from the same index gives the bytes back.
pub unmask-unmask :
    (mask : Bytes) (i : ℕ) (bytes : Bytes)
    → All IsByte mask
    → All IsByte bytes
    → unmask mask i (unmask mask i bytes) ≡ bytes
unfolding unmask
unmask-unmask mask i [] hm hb = refl
unmask-unmask mask i (b ∷ bs) hm (hb, hbs) =
    rw (xor_twice b (get_or mask (i % 4) 0) hb (get_or-IsByte mask (i % 4) hm))
      (ap (◌∷◌ b) (unmask-unmask mask (suc i) bs hm hbs))

pub length-unmask :
    (mask : Bytes) (i : ℕ) (bytes : Bytes) → length (unmask mask i bytes) ≡ length bytes
unfolding unmask
length-unmask mask i [] = refl
length-unmask mask i (b ∷ bs) = ap suc (length-unmask mask (suc i) bs)
