-- ===== src/Generate/ShellNames.antt =====
-- The variables that the shutdown script of a cluster reads.
use Prim.Native.Char.{Char, code}
use Prim.Native.String.{char_at}
use text.Mathlib.TextLemmas.{nil-append, cons-append}
use cndb_redis.Base.{
  if◌then◌else◌, false, ℕ, zero, suc, ◌-◌, ◌<◌, String, ◌<>◌, Bool, true, ◌&&◌, ◌||◌, leb, ◌==◌,
  ◌≡◌, refl, ap, ◌∙◌, arith, Bool-cases, inl, inr,
}
use cndb_redis.Generate.Scripts.{upper_char, to_upper}
use cndb_redis.Generate.ConfigMaps.{env_sentinel_host, env_sentinel_port}

-- a letter, a digit or an underscore
unfoldable pub is_word : ℕ → Bool
is_word c =
    (leb b'a' c && leb c b'z')
    || ((leb b'A' c && leb c b'Z') || ((leb b'0' c && leb c b'9') || c == b'_'))

-- all that a shell takes for the rest of a variable's name
unfoldable pub is_shell_name : String → Bool
unfolding is_word
is_shell_name String.[] = true
is_shell_name (String.◌∷◌ c s) = is_word (code c) && is_shell_name s

-- the capital of that index
abbrev capital_is_word : ℕ → Bool
capital_is_word i = is_word (code (char_at "ABCDEFGHIJKLMNOPQRSTUVWXYZ" i))

-- the first capitals, each tested
word_capitals : ℕ → Bool
word_capitals zero = true
word_capitals (suc i) = if capital_is_word i then word_capitals i else false

word_capitals_table : word_capitals 26 ≡ true
unfolding word_capitals is_word
word_capitals_table = refl

capital_is_word-lt :
    (bound i : ℕ) → i < bound → word_capitals bound ≡ true → capital_is_word i ≡ true
unfolding word_capitals
capital_is_word-lt zero i below tested = elim below [ ]
capital_is_word-lt (suc bound) i below tested =
    let earlier = capital_is_word-lt bound i in ground (arith, earlier)

is_word_of_lower : (n : ℕ) → (leb b'a' n && leb n b'z') ≡ true → is_word n ≡ true
unfolding is_word
is_word_of_lower n h = rw h refl

upper_char-is_word : (c : Char) → is_word (code (upper_char c)) ≡ is_word (code c)
unfolding upper_char
upper_char-is_word c = elim (Bool-cases (leb b'a' (code c) && leb (code c) b'z')) [
  | inl lower ↦
      rw (lower, is_word_of_lower (code c) lower)
        (capital_is_word-lt 26 (code c - b'a') (ground arith) word_capitals_table)
  | inr other ↦ rw other refl
]

is_shell_name-append :
    (s t : String) → is_shell_name (s <> t) ≡ (is_shell_name s && is_shell_name t)
unfolding is_shell_name
is_shell_name-append String.[] t = ap is_shell_name (nil-append t)
is_shell_name-append (String.◌∷◌ c s) t =
    rw (cons-append c s t, is_shell_name-append s t) (ground arith)

is_shell_name-to_upper : (s : String) → is_shell_name (to_upper s) ≡ is_shell_name s
unfolding is_shell_name to_upper
is_shell_name-to_upper String.[] = refl
is_shell_name-to_upper (String.◌∷◌ c s) = rw (upper_char-is_word c, is_shell_name-to_upper s) refl

framed :
    (a b name : String)
    → is_shell_name a ≡ true
    → is_shell_name b ≡ true
    → is_shell_name (a <> (to_upper name <> b)) ≡ is_shell_name name
framed a b name ha hb =
    is_shell_name-append a (to_upper name <> b)
    ∙ rw (is_shell_name-append (to_upper name) b, ha, hb, is_shell_name-to_upper name)
        (ground arith)

-- The variables from which the shutdown script takes the host and the port of the sentinels are names
-- of shell variables exactly when the name of the resource has letters, digits and underscores only:
-- with a hyphen, as Kubernetes allows it, the shell reads the hyphen as an operator.
pub env_sentinel-is_shell_name :
    (name : String)
    → (is_shell_name (env_sentinel_host name) ≡ is_shell_name name)
      × (is_shell_name (env_sentinel_port name) ≡ is_shell_name name)
unfolding env_sentinel_host env_sentinel_port
env_sentinel-is_shell_name name = (
  framed "REDIS_SENTINEL_" "_SERVICE_HOST" name (unfold is_shell_name in refl)
      (unfold is_shell_name in refl),
  framed "REDIS_SENTINEL_" "_SERVICE_PORT_SENTINEL" name (unfold is_shell_name in refl)
      (unfold is_shell_name in refl),
)
