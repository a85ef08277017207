-- ===== src/Strconv.antt =====
-- strconv.FormatInt and strconv.ParseInt, in base 10 and 64 bits, as pkg/util/utils.go calls them.
pub mod Digits
pub mod RoundTrip
use Prim.Native.Char.{Char}
use cndb_redis.Base.{
  ℕ, zero, suc, ◌+◌, ◌-◌, ◌*◌, ◌/◌, ◌%◌, ◌^◌, String, Bool, true, false, ◌||◌, List, [], ◌∷◌,
  if◌then◌else◌, ltb, leb, ◌==◌, Result, ok, err,
}
use cndb_redis.Base.Int.{ℤ, pos, negsuc, sub_ℕ}

pub digit_char : ℕ → Char
digit_char d =
    if d == 0
    then "0"
    else if d == 1
    then "1"
    else if d == 2
    then "2"
    else if d == 3
    then "3"
    else if d == 4
    then "4"
    else if d == 5
    then "5"
    else if d == 6
    then "6"
    else if d == 7
    then "7"
    else if d == 8
    then "8"
    else "9"

-- the digits of `n` before `out`; a division by ten uses up one unit of fuel, and `n` units suffice
pub digits : ℕ → ℕ → String → String
unfolding digit_char
digits zero n out = out
digits (suc fuel) n out =
    let rest = digits fuel (n / 10) (String.◌∷◌ (digit_char (n % 10)) out) in
    if n == 0 then out else rest

unfoldable pub format_nat : ℕ → String
unfolding digits
format_nat n = if n == 0 then "0" else digits n n ""

unfoldable pub format_int : ℤ → String
unfolding format_nat
format_int (pos n) = format_nat n
format_int (negsuc n) = String.◌∷◌ "-" (format_nat (suc n))

pub data ParseError : Type 0 where
  syntax range : ParseError

-- n*10 + d, refused where it leaves uint64
pub scan : List ℕ → ℕ → Result ParseError ℕ
scan [] n = ok n
scan (c ∷ s) n =
    let d = c - b'0' in
    let n1 = (n * 10 + d) % 2 ^ 64 in
    if ltb c b'0' || ltb b'9' c
    then err syntax
    else if leb ((2 ^ 64 - 1) / 10 + 1) n
    then err range
    else if ltb n1 (n * 10)
    then err range
    else scan s n1

unfoldable pub parse_uint : List ℕ → Result ParseError ℕ
unfolding scan
parse_uint [] = err syntax
parse_uint (c ∷ s) = scan (c ∷ s) 0

pub signed : Bool → Result ParseError ℕ → Result ParseError ℤ
signed neg (err e) = err e
signed true (ok n) = if ltb (2 ^ 63) n then err range else ok (sub_ℕ 0 n)
signed false (ok n) = if leb (2 ^ 63) n then err range else ok (pos n)

unfoldable pub parse_int : List ℕ → Result ParseError ℤ
unfolding parse_uint signed
parse_int [] = err syntax
parse_int (c ∷ s) =
    if c == b'+'
    then signed false (parse_uint s)
    else if c == b'-'
    then signed true (parse_uint s)
    else signed false (parse_uint (c ∷ s))
