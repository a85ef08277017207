-- ===== src/Ops/Settles.antt =====
-- Calls that succeed, and that change nothing once they have run.
use cndb_redis.Base.{Bool, true, false, ◌≡◌, refl, if◌then◌else◌, ok}
use cndb_redis.Ops.{Op, pure, ◌>>◌}

-- From a state in which `pre` holds the call succeeds, it takes the state along `Steps` and makes `post`
-- true; where `post` holds the call leaves the state as it is.
pub record Settles {W : Type 0} (Steps : W → W → Type 0) (pre : W → Type 0) (f : Op W (Unit {0}))
    (post : W → Type 0) : Type 0 where
  pub run : (w : W) → pre w → (w' : W) × (f w ≡ (ok tt, w')) × Steps w w' × post w'
  pub again : (w : W) → post w → f w ≡ (ok tt, w)

abbrev pub Lasts : {W : Type 0} → (W → W → Type 0) → (W → Type 0) → Type 0
Lasts {W} Steps P = (w w' : W) → Steps w w' → P w → P w'

module _ {W : Type 0} where
  -- the second call starts where the first one ends, and leaves what that has settled
  pub next-Settles :
      {First Second Both : W → W → Type 0} {P p p' q q' : W → Type 0} (f g : Op W (Unit {0}))
      → ((w v u : W) → First w v → Second v u → Both w u)
      → ((w : W) → P w → p w)
      → ((w v : W) → First w v → P w → p' v)
      → Lasts Second q
      → Settles First p f q
      → Settles Second p' g q'
      → Settles Both P (f >> g) (λ w. q w × q' w)
  next-Settles f g joined start between lasts first second = record {
    run = λ w h.
        let (v, ran, stepped, done) = first.run w (start w h) in
        let (u, ran', stepped', done') = second.run v (between w v stepped h) in
        (u, rw ran ran', joined w v u stepped stepped', (lasts v u stepped' done, done'));
    again = λ w h. rw (first.again w h.0) (second.again w h.1);
  }

  pub when-Settles :
      {Steps : W → W → Type 0} {pre post : W → Type 0} (b : Bool) (f : Op W (Unit {0}))
      → ((w : W) → Steps w w)
      → (b ≡ true → Settles Steps pre f post)
      → Settles Steps pre (if b then f else pure tt) (λ w. b ≡ true → post w)
  when-Settles true f stays h = record {
    run = λ w p. let (v, ran, stepped, done) = (h refl).run w p in (v, ran, stepped, λ e. done);
    again = λ w done. (h refl).again w (done refl);
  }
  when-Settles false f stays h = record {
    run = λ w p. (w, refl, stays w, λ e. absurd (cc));
    again = λ w done. refl;
  }
