-- ===== src/Util/Memory/Sizes.antt =====
-- When the size that ParseRedisMemConf prints is the true one.
use mathlib.Core.List.{map}
use cndb_redis.Base.{
  ℕ, ◌-◌, ◌*◌, ◌^◌, ◌≤◌, ◌<◌, String, List, [], ◌++◌, ◌≡◌, ◌≢◌, arith, All, codes, ok, refl, ap,
  sym, ◌∙◌, append-nil,
}
use cndb_redis.Base.Int.{pos, negsuc, mul_wrap}
use cndb_redis.Strconv.{format_nat, format_int}
use cndb_redis.Strconv.Digits.{IsDigit, value}
use cndb_redis.Strconv.RoundTrip.{format_nat-ne-nil, format_nat_shape}
use cndb_redis.Util.Memory.{to_lower, parse_redis_mem_conf}
use cndb_redis.Util.Memory.Suffixes.{
  SizeUnit, plain, suffix, factor, parse_redis_mem_conf_lem, lower_digits,
}

mul_wrap_exact : (a b : ℕ) → a * b < 2 ^ 63 → mul_wrap 64 (pos a) (pos b) ≡ pos (a * b)
unfolding mul_wrap
mul_wrap_exact a b h = ground arith

mul_wrap_negative :
    (a b : ℕ)
    → 2 ^ 63 ≤ a * b
    → a * b < 2 ^ 64
    → mul_wrap 64 (pos a) (pos b) ≡ negsuc (2 ^ 64 - a * b - 1)
unfolding mul_wrap
mul_wrap_negative a b h k = ground arith

-- A size of digits and a unit whose product stays below 2^63 becomes the decimal print of exactly
-- that number of bytes.
pub parse_redis_mem_conf_exact :
    (p : String) (ds : List ℕ) (u : SizeUnit)
    → map to_lower (codes p) ≡ ds ++ suffix u
    → ds ≢ []
    → All IsDigit ds
    → value 0 ds < 2 ^ 63
    → value 0 ds * factor u < 2 ^ 63
    → parse_redis_mem_conf p ≡ ok (format_nat (value 0 ds * factor u))
parse_redis_mem_conf_exact p ds u e h all_digits fits small =
    rw (parse_redis_mem_conf_lem p ds u e h all_digits fits, mul_wrap_exact _ _ small)
      (unfold format_int in refl)

-- A size of digits below 2^63 and a unit, in letters of either case, whose product with the factor of
-- the unit is from 2^63 to below 2^64 is accepted, and becomes a negative number: the product less
-- 2^64.
pub parse_redis_mem_conf_overflow :
    (p : String) (ds : List ℕ) (u : SizeUnit)
    → map to_lower (codes p) ≡ ds ++ suffix u
    → ds ≢ []
    → All IsDigit ds
    → value 0 ds < 2 ^ 63
    → 2 ^ 63 ≤ value 0 ds * factor u
    → value 0 ds * factor u < 2 ^ 64
    → parse_redis_mem_conf p ≡ ok (format_int (negsuc (2 ^ 64 - value 0 ds * factor u - 1)))
parse_redis_mem_conf_overflow p ds u e h all_digits fits big small =
    rw (parse_redis_mem_conf_lem p ds u e h all_digits fits, mul_wrap_negative _ _ big small)

-- A number of bytes below 2^63 that is already in decimal is left as it is.
pub parse_redis_mem_conf-format_nat :
    (n : ℕ) → n < 2 ^ 63 → parse_redis_mem_conf (format_nat n) ≡ ok (format_nat n)
unfolding suffix factor
parse_redis_mem_conf-format_nat n h =
    let (all_digits, same) = format_nat_shape n in
    let scaled : value 0 (codes (format_nat n)) * factor plain ≡ n = omega (arith, same) in
    let e = lower_digits (codes (format_nat n)) all_digits ∙ sym (append-nil _) in
    parse_redis_mem_conf_exact (format_nat n) (codes (format_nat n)) plain e (format_nat-ne-nil n)
      all_digits (omega (arith, same)) (omega (arith, scaled))
    ∙ ap (λ (m : ℕ). ok (format_nat m)) scaled
