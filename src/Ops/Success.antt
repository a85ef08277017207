-- ===== src/Ops/Success.antt =====
-- What a call that succeeded has done.
use cndb_redis.Base.{List, [], ◌∷◌, ◌≡◌, ◌⊎◌, inl, inr, refl, ap, Result, ok, err}
use cndb_redis.Ops.{Op, Error, continue, ◌>>=◌, rescue, for_each}

-- a step that succeeds has a first call that succeeds
pub bind-ok :
    {W A B : Type 0} (m : Op W A) (f : A → Op W B) (w w' : W) {b : B}
    → (m >>= f) w ≡ (ok b, w')
    → (a : A) × (v : W) × (m w ≡ (ok a, v)) × (f a v ≡ (ok b, w'))
bind-ok {W} {A} {B} m f w w' {b} h = go (m w) h
  where
    go :
        (r : Result Error A × W)
        → continue r f ≡ (ok b, w')
        → (a : A) × (v : W) × (r ≡ (ok a, v)) × (f a v ≡ (ok b, w'))
    go (ok a, v) e = (a, v, refl, e)
    go (err x, v) e = absurd (cc)

-- a handled call succeeds by itself, or its handler does
pub rescue-ok :
    {W A : Type 0} (r : Result Error A × W) (handler : Error → Op W A) (w' : W) {a : A}
    → rescue r handler ≡ (ok a, w')
    → (r ≡ (ok a, w')) ⊎ ((e : Error) × (v : W) × (r ≡ (err e, v)) × (handler e v ≡ (ok a, w')))
rescue-ok (ok a, w) handler w' h = inl h
rescue-ok (err e, w) handler w' h = inr (e, w, refl, h)

-- a path from `w` to `w'` that takes one step `P x` for each x of the list, in order
unfoldable pub Turns : {W A : Type 0} → (A → W → W → Type 0) → List A → W → W → Type 0
Turns P [] w w' = w ≡ w'
Turns {W} P (x ∷ xs) w w' = (v : W) × P x w v × Turns P xs v w'

-- a loop succeeds only if every turn does, each in the state that the turn before it left
pub for_each-ok :
    {W A : Type 0} (P : A → W → W → Type 0) (body : A → Op W (Unit {0}))
    (each : (x : A) (v w : W) → body x v ≡ (ok tt, w) → P x v w) (xs : List A) (w w' : W)
    → for_each xs body w ≡ (ok tt, w')
    → Turns P xs w w'
unfolding for_each Turns
for_each-ok P body each [] w w' h = ap (λ (q : Result Error (Unit {0}) × _). q.1) h
for_each-ok P body each (x ∷ xs) w w' h =
    let (_, v, first, rest) = bind-ok (body x) _ w w' h in
    (v, each x w v first, for_each-ok P body each xs v w' rest)
