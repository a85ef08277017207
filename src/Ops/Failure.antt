-- ===== src/Ops/Failure.antt =====
-- Where the error of a call that failed comes from.
use cndb_redis.Base.{◌≡◌, ◌⊎◌, inl, inr, refl, Result, ok, err}
use cndb_redis.Ops.{Op, Error, continue, ◌>>=◌, rescue}

-- two steps fail in the first, or in the second
pub bind-err :
    {W A B : Type 0} (m : Op W A) (f : A → Op W B) (w w' : W) {e : Error}
    → (m >>= f) w ≡ (err e, w')
    → (m w ≡ (err e, w')) ⊎ ((a : A) × (v : W) × (m w ≡ (ok a, v)) × (f a v ≡ (err e, w')))
bind-err {W} {A} {B} m f w w' {e} h = go (m w) h
  where
    go :
        (r : Result Error A × W)
        → continue r f ≡ (err e, w')
        → (r ≡ (err e, w')) ⊎ ((a : A) × (v : W) × (r ≡ (ok a, v)) × (f a v ≡ (err e, w')))
    go (ok a, v) h = inr (a, v, refl, h)
    go (err x, v) h = inl (cc)

-- a handled call fails only in its handler
pub rescue-err :
    {W A : Type 0} (r : Result Error A × W) (handler : Error → Op W A) (w' : W) {e : Error}
    → rescue r handler ≡ (err e, w')
    → (x : Error) × (v : W) × (r ≡ (err x, v)) × (handler x v ≡ (err e, w'))
rescue-err (ok a, w) handler w' h = absurd (cc)
rescue-err (err x, w) handler w' h = (x, w, refl, h)
