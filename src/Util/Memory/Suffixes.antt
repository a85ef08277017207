-- ===== src/Util/Memory/Suffixes.antt =====
-- The sizes that ParseRedisMemConf accepts, against a table of the units.
use mathlib.Core.List.{reverse, map, reverse-append, reverse-reverse}
use cndb_redis.Base.{
  ℕ, ◌-◌, ◌^◌, ◌<◌, String, List, [], ◌∷◌, ◌++◌, ◌≡◌, ◌≢◌, refl, arith, All, codes, length, take,
  ok, length-append, ap, append-nil, sym, ◌∙◌,
}
use cndb_redis.Base.Int.{pos, mul_wrap}
use cndb_redis.Strconv.{format_int}
use cndb_redis.Strconv.Digits.{IsDigit, value, parse_int-value}
use cndb_redis.Util.Memory.{to_lower, has_suffix, has_prefix, trim, split, parse_redis_mem_conf}

pub data SizeUnit : Type 0 where
  plain bytes kilo kibi mega mebi giga gibi : SizeUnit

unfoldable pub suffix : SizeUnit → List ℕ
suffix plain = []
suffix bytes = codes "b"
suffix kilo = codes "k"
suffix kibi = codes "kb"
suffix mega = codes "m"
suffix mebi = codes "mb"
suffix giga = codes "g"
suffix gibi = codes "gb"

unfoldable pub factor : SizeUnit → ℕ
factor plain = 1
factor bytes = 1
factor kilo = 1000
factor kibi = 1024
factor mega = 1000000
factor mebi = 1048576
factor giga = 1000000000
factor gibi = 1073741824

All-append : (xs ys : List ℕ) → All IsDigit xs → All IsDigit ys → All IsDigit (xs ++ ys)
All-append [] ys h k = k
All-append (x ∷ xs) ys (h, hs) k = (h, All-append xs ys hs k)

reverse-IsDigit : (xs : List ℕ) → All IsDigit xs → All IsDigit (reverse xs)
reverse-IsDigit [] h = tt
reverse-IsDigit (x ∷ xs) (h, hs) =
    rw (reverse-append (x ∷ []) xs)
      (All-append (reverse xs) (x ∷ []) (reverse-IsDigit xs hs) (h, tt))

last-IsDigit :
    (ds : List ℕ)
    → ds ≢ []
    → All IsDigit ds
    → (d : ℕ) × (r : List ℕ) × (reverse ds ≡ d ∷ r) × IsDigit d
last-IsDigit ds h k = go (reverse ds) refl (reverse-IsDigit ds k)
  where
    go :
        (xs : List ℕ)
        → reverse ds ≡ xs
        → All IsDigit xs
        → (d : ℕ) × (r : List ℕ) × (reverse ds ≡ d ∷ r) × IsDigit d
    go [] e q = absurd (h (sym (reverse-reverse ds) ∙ ap reverse e))
    go (d ∷ r) e (q, _) = (d, r, e, q)

take-length : (ds s : List ℕ) → take (length ds) (ds ++ s) ≡ ds
take-length [] s = refl
take-length (d ∷ ds) s = ap (λ (t : List ℕ). d ∷ t) (take-length ds s)

trim-append : (ds s : List ℕ) → trim (ds ++ s) s ≡ ds
unfolding trim
trim-append ds s =
    let e : length (ds ++ s) - length s ≡ length ds = omega (arith, length-append ds s) in
    rw e (take-length ds s)

module _ (ds : List ℕ) {d : ℕ} {r : List ℕ} (e : reverse ds ≡ d ∷ r) (h : IsDigit d) where
  has_suffix-append :
      (s p : List ℕ) → has_suffix (ds ++ s) p ≡ has_prefix (reverse s ++ d ∷ r) (reverse p)
  unfolding has_suffix
  has_suffix-append s p = rw (reverse-append ds s, e)

  has_suffix_digits : (p : List ℕ) → has_suffix ds p ≡ has_prefix (d ∷ r) (reverse p)
  unfolding has_suffix
  has_suffix_digits p = rw e

  split-append : (u : SizeUnit) → split (ds ++ suffix u) ≡ record { digits = ds; mul = factor u }
  unfolding split suffix factor has_prefix
  split-append plain = rw append-nil (simp (has_suffix_digits) (ground arith))
  split-append _ = simp (has_suffix-append, trim-append) (ground arith)

pub lower_digits : (ds : List ℕ) → All IsDigit ds → map to_lower ds ≡ ds
unfolding to_lower
lower_digits [] h = refl
lower_digits (d ∷ ds) (h, hs) = ground (arith, lower_digits ds hs)

-- Digits with a unit behind them, in either case, are read as the value of the digits times the
-- factor of the unit, in 64 bits: a product that leaves int64 wraps around.
pub parse_redis_mem_conf_lem :
    (p : String) (ds : List ℕ) (u : SizeUnit)
    → map to_lower (codes p) ≡ ds ++ suffix u
    → ds ≢ []
    → All IsDigit ds
    → value 0 ds < 2 ^ 63
    → parse_redis_mem_conf p ≡ ok (format_int (mul_wrap 64 (pos (value 0 ds)) (pos (factor u))))
unfolding parse_redis_mem_conf
parse_redis_mem_conf_lem p ds u e h all_digits fits =
    let (d, r, rev, hd) = last-IsDigit ds h all_digits in
    rw (e, split-append ds rev hd u, parse_int-value ds h all_digits fits)
