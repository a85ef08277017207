-- ===== src/Strconv/Digits.antt =====
-- The digits that FormatInt prints, and their value.
use Prim.Native.Char.{code}
use cndb_redis.Base.{
  ℕ, zero, suc, ◌+◌, ◌-◌, ◌*◌, ◌/◌, ◌%◌, ◌^◌, ◌≤◌, ◌<◌, String, List, [], ◌∷◌, ◌≡◌, ◌≢◌, refl,
  arith, All, codes, ok,
}
use cndb_redis.Base.Int.{pos}
use cndb_redis.Strconv.{digit_char, digits, scan, parse_uint, parse_int}

abbrev pub IsDigit : ℕ → Type 0
IsDigit c = (b'0' ≤ c) × (c ≤ b'9')

-- the number that digits spell behind `n`, with no bound
abbrev pub value : ℕ → List ℕ → ℕ
value n [] = n
value n (c ∷ s) = value (n * 10 + (c - b'0')) s

code-digit_char : (d : ℕ) → d < 10 → code (digit_char d) ≡ b'0' + d
unfolding digit_char
code-digit_char zero h = refl
code-digit_char (suc zero) h = refl
code-digit_char (suc (suc zero)) h = refl
code-digit_char (suc (suc (suc zero))) h = refl
code-digit_char (suc (suc (suc (suc zero)))) h = refl
code-digit_char (suc (suc (suc (suc (suc zero))))) h = refl
code-digit_char (suc (suc (suc (suc (suc (suc zero)))))) h = refl
code-digit_char (suc (suc (suc (suc (suc (suc (suc zero))))))) h = refl
code-digit_char (suc (suc (suc (suc (suc (suc (suc (suc zero)))))))) h = refl
code-digit_char (suc (suc (suc (suc (suc (suc (suc (suc (suc zero))))))))) h = refl
code-digit_char (suc (suc (suc (suc (suc (suc (suc (suc (suc (suc d)))))))))) h =
    absurd (omega arith)

pub digits_shape :
    (fuel n : ℕ) (out : String)
    → n ≤ fuel
    → All IsDigit (codes out)
    → All IsDigit (codes (digits fuel n out))
      × (value 0 (codes (digits fuel n out)) ≡ value n (codes out))
unfolding digits
digits_shape zero n out h k = (k, ground arith)
digits_shape (suc fuel) n out h k = ground (
  arith,
  digits_shape fuel (n / 10) (String.◌∷◌ (digit_char (n % 10)) out),
  code-digit_char (n % 10),
)

le-value : (s : List ℕ) (n : ℕ) → n ≤ value n s
le-value [] n = omega arith
le-value (c ∷ s) n = omega (arith, le-value s (n * 10 + (c - b'0')))

pub scan-value :
    (s : List ℕ) (n : ℕ) → All IsDigit s → value n s < 2 ^ 64 → scan s n ≡ ok (value n s)
unfolding scan
scan-value [] n h k = refl
scan-value (c ∷ s) n (hc, hs) k =
    ground (arith, scan-value s (n * 10 + (c - b'0')) hs k, le-value s (n * 10 + (c - b'0')))

pub parse_uint-value :
    (s : List ℕ) → s ≢ [] → All IsDigit s → value 0 s < 2 ^ 64 → parse_uint s ≡ ok (value 0 s)
unfolding parse_uint
parse_uint-value [] h k lt = absurd (h refl)
parse_uint-value (c ∷ s) h k lt = scan-value (c ∷ s) 0 k lt

-- A text of digits below 2^63 is read as its value.
pub parse_int-value :
    (s : List ℕ) → s ≢ [] → All IsDigit s → value 0 s < 2 ^ 63 → parse_int s ≡ ok (pos (value 0 s))
unfolding parse_int
parse_int-value [] h k lt = absurd (h refl)
parse_int-value (c ∷ s) h (hc, hs) lt = ground (arith, scan-value (c ∷ s) 0 (hc, hs))
