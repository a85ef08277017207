-- ===== src/Samples/Sizes.antt =====
-- Memory sizes of redis.conf.
use cndb_redis.Base.{ok, refl, ◌≡◌, ◌≢◌, ◌*◌, ◌-◌, ◌^◌, arith, [], All, codes, ℕ, List}
use cndb_redis.Base.Int.{negsuc, mul_wrap}
use cndb_redis.Strconv.{format_nat, format_int}
use cndb_redis.Strconv.Digits.{IsDigit}
use cndb_redis.Util.Memory.{to_lower, parse_redis_mem_conf}
use cndb_redis.Util.Memory.Suffixes.{kibi, giga, suffix, factor}
use cndb_redis.Util.Memory.Sizes.{parse_redis_mem_conf_exact, parse_redis_mem_conf_overflow}

mem_conf_tests :
    (parse_redis_mem_conf "12b" ≡ ok "12")
    × (parse_redis_mem_conf "1202" ≡ ok "1202")
    × (parse_redis_mem_conf "12B" ≡ ok "12")
    × (parse_redis_mem_conf "12k" ≡ ok "12000")
    × (parse_redis_mem_conf "12Kb" ≡ ok "12288")
    × (parse_redis_mem_conf "12mb" ≡ ok "12582912")
    × (parse_redis_mem_conf "12gb" ≡ ok "12884901888")
unfolding parse_redis_mem_conf mul_wrap format_int
mem_conf_tests = (refl, refl, refl, refl, refl, refl, refl)

abbrev twelve : List ℕ
twelve = codes "12"

twelve_digits : All IsDigit twelve
twelve_digits = ((omega arith, omega arith), ((omega arith, omega arith), tt))

twelve-ne-nil : twelve ≢ []
twelve-ne-nil h = cc

abbrev ten_billion : List ℕ
ten_billion = codes "10000000000"

ten_billion_digits : All IsDigit ten_billion
ten_billion_digits = ground arith

ten_billion-ne-nil : ten_billion ≢ []
ten_billion-ne-nil h = cc

parse_redis_mem_conf_exact_example : parse_redis_mem_conf "12Kb" ≡ ok (format_nat (12 * 1024))
unfolding factor suffix to_lower
parse_redis_mem_conf_exact_example =
    parse_redis_mem_conf_exact "12Kb" twelve kibi refl twelve-ne-nil twelve_digits (omega arith)
      (omega arith)

parse_redis_mem_conf_overflow_example :
    parse_redis_mem_conf "10000000000g"
    ≡ ok (format_int (negsuc (2 ^ 64 - 10000000000 * 1000000000 - 1)))
unfolding factor suffix to_lower
parse_redis_mem_conf_overflow_example =
    parse_redis_mem_conf_overflow "10000000000g" ten_billion giga refl ten_billion-ne-nil
      ten_billion_digits (omega arith) (omega arith) (omega arith)
