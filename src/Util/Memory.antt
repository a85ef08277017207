-- ===== src/Util/Memory.antt =====
-- pkg/util/utils.go: `ParseRedisMemConf`, which rewrites a memory size of redis.conf to bytes.
pub mod Suffixes
pub mod Sizes
use mathlib.Core.List.{reverse, map}
use cndb_redis.Base.{
  ℕ, zero, suc, ◌+◌, ◌-◌, ◌*◌, String, Bool, true, false, ◌&&◌, List, [], ◌∷◌, if◌then◌else◌, leb,
  ◌==◌, codes, length, take, Result, ok, err,
}
use cndb_redis.Base.Int.{ℤ, pos, mul_wrap}
use cndb_redis.Strconv.{ParseError, parse_int, format_int}

-- strings.ToLower, as far as the parser can tell: two code points outside ASCII have a lower case
-- inside it, and every other one maps to a character that is no digit, sign or suffix.
unfoldable pub to_lower : ℕ → ℕ
to_lower c =
    if leb b'A' c && leb c b'Z'
    then c + 32
    else if c == 0x212A
    then b'k'
    else if c == 0x130
    then b'i'
    else c

has_prefix : List ℕ → List ℕ → Bool
has_prefix s [] = true
has_prefix [] (c ∷ p) = false
has_prefix (d ∷ s) (c ∷ p) = d == c && has_prefix s p

-- strings.HasSuffix
pub has_suffix : List ℕ → List ℕ → Bool
unfolding has_prefix
has_suffix s p = has_prefix (reverse s) (reverse p)

-- u[:len(u)-len(p)]
pub trim : List ℕ → List ℕ → List ℕ
trim u p = take (length u - length p) u

-- the digits and the factor that the ladder of `HasSuffix` tests chooses
pub record Split : Type 0 where
  pub digits : List ℕ
  pub mul : ℕ

pub split : List ℕ → Split
unfolding has_suffix trim
split u =
    if has_suffix u (codes "k")
    then record { digits = trim u (codes "k"); mul = 1000 }
    else if has_suffix u (codes "kb")
    then record { digits = trim u (codes "kb"); mul = 1024 }
    else if has_suffix u (codes "m")
    then record { digits = trim u (codes "m"); mul = 1000 * 1000 }
    else if has_suffix u (codes "mb")
    then record { digits = trim u (codes "mb"); mul = 1024 * 1024 }
    else if has_suffix u (codes "g")
    then record { digits = trim u (codes "g"); mul = 1000 * 1000 * 1000 }
    else if has_suffix u (codes "gb")
    then record { digits = trim u (codes "gb"); mul = 1024 * 1024 * 1024 }
    else if has_suffix u (codes "b")
    then record { digits = trim u (codes "b"); mul = 1 }
    else record { digits = u; mul = 1 }

-- strconv.FormatInt(val*mul, 10), where the product is an int64
pub scale : Result ParseError ℤ → ℕ → Result ParseError String
scale (err e) mul = err e
scale (ok val) mul = ok (format_int (mul_wrap 64 val (pos mul)))

unfoldable pub parse_redis_mem_conf : String → Result ParseError String
unfolding to_lower split scale parse_int
parse_redis_mem_conf p = let s = split (map to_lower (codes p)) in scale (parse_int s.digits) s.mul
