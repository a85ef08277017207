-- ===== src/Ops.antt =====
-- Calls that talk to Kubernetes or to redis: they may fail, and they change the world outside.
pub mod Settles
pub mod Success
pub mod Preserves
pub mod Failure
use cndb_redis.Base.{String, Bool, true, false, Result, ok, err, List, [], ◌∷◌}

-- A Go error: its text, and whether apimachinery's IsNotFound accepts it.
pub data Error : Type 0 where
  not_found : String → Error
  failure : String → Error

unfoldable pub error_text : Error → String
error_text (not_found text) = text
error_text (failure text) = text

unfoldable pub is_not_found : Error → Bool
is_not_found (not_found text) = true
is_not_found (failure text) = false

abbrev pub Op : Type 0 → Type 0 → Type 0
Op W A = W → Result Error A × W

module _ {W : Type 0} where
  abbrev pub pure : {A : Type 0} → A → Op W A
  pure a w = (ok a, w)

  abbrev pub fail : {A : Type 0} → Error → Op W A
  fail e w = (err e, w)

  -- an error that is returned with what the call has changed
  abbrev pub continue : {A B : Type 0} → Result Error A × W → (A → Op W B) → Result Error B × W
  continue (ok a, w) f = f a w
  continue (err e, w) f = (err e, w)

  infixl 5 ◌>>=◌ ◌>>◌
  abbrev pub ◌>>=◌ : {A B : Type 0} → Op W A → (A → Op W B) → Op W B
  ◌>>=◌ m f w = continue (m w) f

  abbrev pub ◌>>◌ : {B : Type 0} → Op W (Unit {0}) → Op W B → Op W B
  m >> n = m >>= λ _. n

  -- if err := m; err != nil { handler }
  abbrev pub rescue : {A : Type 0} → Result Error A × W → (Error → Op W A) → Result Error A × W
  rescue (ok a, w) handler = (ok a, w)
  rescue (err e, w) handler = handler e w

  abbrev pub on_error : {A : Type 0} → Op W A → (Error → Op W A) → Op W A
  on_error m handler w = rescue (m w) handler

  -- for _, x := range xs { if err := body(x); err != nil { return err } }
  unfoldable pub for_each : {A : Type 0} → List A → (A → Op W (Unit {0})) → Op W (Unit {0})
  for_each [] body = pure tt
  for_each (x ∷ xs) body = body x >> for_each xs body
