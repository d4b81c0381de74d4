-- ===== src/Http/Base64/Bits.antt =====
-- The masks and shifts of the encoder as arithmetic, and the alphabet read back.
use tst.Common.{arith, ◌/◌, refl, ◌+◌, ◌*◌, ◌%◌, ◌<◌, ◌≡◌, ℕ, bit_and, bit_or}
use tst.Common.Tables.{all_below, agree_below, agree_below_both}
use tst.Http.Base64.{first_letter, second_letter, third_letter, fourth_letter, b64, b64reverse}

pub low_two : (a : ℕ) → a < 256 → bit_and a 3 ≡ a % 4
unfolding all_below
low_two = agree_below 256 (λ a. bit_and a 3) (λ a. a % 4) refl

pub low_four : (a : ℕ) → a < 256 → bit_and a 15 ≡ a % 16
unfolding all_below
low_four = agree_below 256 (λ a. bit_and a 15) (λ a. a % 16) refl

pub low_six : (a : ℕ) → a < 256 → bit_and a 63 ≡ a % 64
unfolding all_below
low_six = agree_below 256 (λ a. bit_and a 63) (λ a. a % 64) refl

pub join_two_four : (x y : ℕ) → x < 4 → y < 16 → bit_or (x * 16) y ≡ x * 16 + y
unfolding all_below
join_two_four = agree_below_both 4 16 (λ x y. bit_or (x * 16) y) (λ x y. x * 16 + y) refl

pub join_four_two : (x y : ℕ) → x < 16 → y < 4 → bit_or (x * 4) y ≡ x * 4 + y
unfolding all_below
join_four_two = agree_below_both 16 4 (λ x y. bit_or (x * 4) y) (λ x y. x * 4 + y) refl

-- Every letter of the alphabet stands for its place.
pub b64reverse-b64 : (v : ℕ) → v < 64 → b64reverse (b64 v) ≡ v
unfolding all_below b64 b64reverse
b64reverse-b64 = agree_below 64 (λ v. b64reverse (b64 v)) (λ v. v) refl

pub b64reverse_end : b64reverse b'=' ≡ 255
unfolding b64reverse
b64reverse_end = refl

-- The values that the letters of the encoder stand for.
pub first_value : (a : ℕ) → a < 256 → b64reverse (first_letter a) ≡ a / 4
first_value a h = b64reverse-b64 (a / 4) (omega arith)

pub second_value :
    (a b : ℕ) → a < 256 → b < 256 → b64reverse (second_letter a b) ≡ a % 4 * 16 + b / 16
second_value a b h k =
    rw (low_two a h, join_two_four (a % 4) (b / 16) (omega arith) (omega arith))
      (b64reverse-b64 (a % 4 * 16 + b / 16) (omega arith))

pub third_value :
    (b c : ℕ) → b < 256 → c < 256 → b64reverse (third_letter b c) ≡ b % 16 * 4 + c / 64
third_value b c h k =
    rw (low_four b h, join_four_two (b % 16) (c / 64) (omega arith) (omega arith))
      (b64reverse-b64 (b % 16 * 4 + c / 64) (omega arith))

pub fourth_value : (c : ℕ) → c < 256 → b64reverse (fourth_letter c) ≡ c % 64
fourth_value c h = rw (low_six c h) (b64reverse-b64 (c % 64) (omega arith))
