-- ===== src/Numbers.antt =====
-- The numbers of JavaScript, in which backend/src/statements/statements.service.ts adds up: IEEE 754
-- doubles, which are no code of this repository. A decimal is its number of ten-thousandths.
use online_banking.Base.{ℕ, ◌+◌, ◌≡◌, ◌≤◌, ◌≢◌, arith}
use online_banking.Base.Int.{ℤ, pos, pos_part, neg_part, ◌+ℤ◌, ◌-ℤ◌}
use online_banking.Base.Text.{Text, codes}

abbrev pub magnitude : ℤ → ℕ
magnitude x = pos_part x + neg_part x

-- A decimal of at most thirty thousand million, which is less than 2^35: a double of that size is at
-- most 2^-18 from the next.
abbrev pub IsSmall : ℤ → Type 0
IsSmall d = magnitude d ≤ 300000000000000

-- A text that shows a decimal: the decimal's own text; or, for zero, that of a negative number which
-- is rounded to zero.
pub data Prints (decimal_4 : ℤ → Text) (t : Text) (d : ℤ) : Type 0 where
  exactly : t ≡ decimal_4 d → Prints decimal_4 t d
  minus_zero : d ≡ pos 0 → t ≡ codes "-0.0000" → Prints decimal_4 t d

pub record Numbers : Type 1 where
  pub Number : Type 0
  -- `Number(d)`, `+`, `-` and `toFixed(4)`
  pub of_decimal : ℤ → Number
  pub add : Number → Number → Number
  pub subtract : Number → Number → Number
  pub to_fixed_4 : Number → Text
  -- a decimal's text with four digits after the point
  pub decimal_4 : ℤ → Text
  -- `IsNear n x d`: the number x and the decimal d differ by at most n times 2^-19.
  pub IsNear : ℕ → Number → ℤ → Type 0
  -- Each operation rounds to a nearest double, which for small results is at most 2^-19 away.
  pub of_decimal_near : (d : ℤ) → IsSmall d → IsNear 1 (of_decimal d) d
  pub add_near :
      (m n : ℕ) (x y : Number) (c d : ℤ)
      → m + n ≤ 25
      → IsSmall (c +ℤ d)
      → IsNear m x c
      → IsNear n y d
      → IsNear (m + n + 1) (add x y) (c +ℤ d)
  pub subtract_near :
      (m n : ℕ) (x y : Number) (c d : ℤ)
      → m + n ≤ 25
      → IsSmall (c -ℤ d)
      → IsNear m x c
      → IsNear n y d
      → IsNear (m + n + 1) (subtract x y) (c -ℤ d)
  -- 26 times 2^-19 is less than half of a ten-thousandth, so the nearest decimal is printed.
  pub to_fixed_4_near :
      (n : ℕ) (x : Number) (d : ℤ) → n ≤ 26 → IsNear n x d → Prints decimal_4 (to_fixed_4 x) d

-- A number that is not zero is shown by its own text.
pub Prints-exactly :
    {decimal_4 : ℤ → Text} {t : Text} {d : ℤ} → d ≢ pos 0 → Prints decimal_4 t d → t ≡ decimal_4 d
Prints-exactly other (exactly e) = e
Prints-exactly other (minus_zero zero e) = absurd (other zero)

pub magnitude_add : (a b : ℤ) → magnitude (a +ℤ b) ≤ magnitude a + magnitude b
unfolding ◌+ℤ◌
magnitude_add a b = ground arith

pub magnitude_sub : (a b : ℤ) → magnitude (a -ℤ b) ≤ magnitude a + magnitude b
unfolding ◌-ℤ◌
magnitude_sub a b = ground arith
