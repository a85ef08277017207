-- ===== src/Ops/Preserves.antt =====
-- Calls that leave an invariant of the world true, whether they succeed or fail.
use cndb_redis.Base.{Bool, true, false, Result, ok, err, if◌then◌else◌}
use cndb_redis.Ops.{Op, Error, pure, fail, ◌>>=◌, ◌>>◌, on_error, continue, rescue}

unfoldable pub Preserves : {W A : Type 0} → (W → Type 0) → Op W A → Type 0
Preserves {W} Inv m = (w : W) → Inv w → Inv (m w).1

module _ {W : Type 0} (Inv : W → Type 0) where
  pub bind-Preserves :
      {A B : Type 0} (m : Op W A) (f : A → Op W B)
      → Preserves Inv m
      → ((a : A) → Preserves Inv (f a))
      → Preserves Inv (m >>= f)
  unfolding Preserves
  bind-Preserves {A} m f first rest w h = go (m w) (first w h)
    where
      go : (q : Result Error A × W) → Inv q.1 → Inv (continue q f).1
      go (ok a, v) kept = rest a v kept
      go (err e, v) kept = kept

  pub next-Preserves :
      {B : Type 0} (m : Op W (Unit {0})) (m' : Op W B)
      → Preserves Inv m
      → Preserves Inv m'
      → Preserves Inv (m >> m')
  next-Preserves m m' first rest = bind-Preserves m (λ _. m') first (λ _. rest)

  pub on_error-Preserves :
      {A : Type 0} (m : Op W A) (f : Error → Op W A)
      → Preserves Inv m
      → ((e : Error) → Preserves Inv (f e))
      → Preserves Inv (on_error m f)
  unfolding Preserves
  on_error-Preserves {A} m f first handled w h = go (m w) (first w h)
    where
      go : (q : Result Error A × W) → Inv q.1 → Inv (rescue q f).1
      go (ok a, v) kept = kept
      go (err e, v) kept = handled e v kept

  pub either-Preserves :
      {A : Type 0} (b : Bool) (m m' : Op W A)
      → Preserves Inv m
      → Preserves Inv m'
      → Preserves Inv (if b then m else m')
  either-Preserves true m m' h h' = h
  either-Preserves false m m' h h' = h'

  pub pure-Preserves : {A : Type 0} (a : A) → Preserves Inv (pure a)
  unfolding Preserves
  pure-Preserves a w h = h

  pub fail-Preserves : (e : Error) → Preserves Inv (fail {A = Unit {0}} e)
  unfolding Preserves
  fail-Preserves e w h = h

  -- what the first call makes true, the second keeps
  pub next_establishes :
      {B : Type 0} (m : Op W (Unit {0})) (m' : Op W B)
      → ((w : W) → Inv (m w).1)
      → Preserves Inv m'
      → (w : W) → Inv ((m >> m') w).1
  unfolding Preserves
  next_establishes {B} m m' made kept w = go (m w) (made w)
    where
      go : (q : Result Error (Unit {0}) × W) → Inv q.1 → Inv (continue q (λ _. m')).1
      go (ok a, v) h = kept v h
      go (err e, v) h = h
