-- ===== src/Strconv/RoundTrip.antt =====
-- What FormatInt prints, ParseInt reads back.
use cndb_redis.Base.{
  ℕ, zero, suc, ◌/◌, ◌%◌, ◌^◌, ◌≤◌, ◌<◌, String, [], ◌≡◌, ◌≢◌, arith, All, codes, ok,
}
use cndb_redis.Base.Int.{ℤ, pos, negsuc, pos_part, neg_part}
use cndb_redis.Strconv.{digit_char, digits, format_nat, format_int, parse_uint, signed, parse_int}
use cndb_redis.Strconv.Digits.{IsDigit, value, digits_shape, parse_uint-value, parse_int-value}

digits-ne-nil : (fuel n : ℕ) (out : String) → codes out ≢ [] → codes (digits fuel n out) ≢ []
unfolding digits
digits-ne-nil zero n out h = h
digits-ne-nil (suc fuel) n out h =
    ground (arith, digits-ne-nil fuel (n / 10) (String.◌∷◌ (digit_char (n % 10)) out))

pub format_nat-ne-nil : (n : ℕ) → codes (format_nat n) ≢ []
unfolding format_nat
format_nat-ne-nil zero = unfold digits in cc
format_nat-ne-nil (suc n) =
    unfold digits in
    ground (arith, digits-ne-nil n (suc n / 10) (String.◌∷◌ (digit_char (suc n % 10)) ""))

-- The print of a number is made of digits and has its value.
pub format_nat_shape :
    (n : ℕ) → All IsDigit (codes (format_nat n)) × (value 0 (codes (format_nat n)) ≡ n)
unfolding format_nat
format_nat_shape zero = omega arith
format_nat_shape (suc n) = ground (arith, digits_shape (suc n) (suc n) "")

parse_uint-format_nat : (n : ℕ) → n < 2 ^ 64 → parse_uint (codes (format_nat n)) ≡ ok n
parse_uint-format_nat n h =
    ground
      (arith, format_nat_shape n, parse_uint-value (codes (format_nat n)) (format_nat-ne-nil n))

-- Every int64 is read back from its decimal print.
pub parse_int-format_int :
    (z : ℤ) → pos_part z < 2 ^ 63 → neg_part z ≤ 2 ^ 63 → parse_int (codes (format_int z)) ≡ ok z
unfolding format_int
parse_int-format_int (pos n) h k =
    ground (arith, format_nat_shape n, parse_int-value (codes (format_nat n)) (format_nat-ne-nil n))
parse_int-format_int (negsuc n) h k =
    unfold parse_int signed in ground (arith, parse_uint-format_nat (suc n))
