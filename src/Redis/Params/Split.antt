-- ===== src/Redis/Params/Split.antt =====
-- The parameter and the value of a setting, put together again.
use Prim.Native.Char.{Char, code}
use text.Mathlib.TextLemmas.{cons-eq-cons, nil-append, cons-append, append_assoc}
use text.Mathlib.TextEquality.{Char-path}
use mathlib.Core.List.{head-eq_of_cons-eq}
use mathlib.Core.Path.{subst}
use cndb_redis.Base.{
  String, ◌<>◌, Bool, false, ◌||◌, List, [], ◌∷◌, ◌≡◌, ◌≢◌, ◌↔◌, refl, sym, ap, ◌∙◌, arith, ◌==◌,
  ==_iff, Bool-cases, inl, inr, ok,
}
use cndb_redis.Redis.Params.{
  push_front, split_spaces, join_spaces, parameters_of, get_config_parameters,
}

join-push_front :
    (c : String) (pieces : List String)
    → pieces ≢ []
    → join_spaces (push_front c pieces) ≡ c <> join_spaces pieces
unfolding push_front join_spaces
join-push_front c [] h = absurd (h refl)
join-push_front c (piece ∷ []) h = refl
join-push_front c (piece ∷ other ∷ pieces) h = append_assoc c piece _

split_spaces-ne-nil : (s : String) → split_spaces s ≢ []
unfolding split_spaces push_front
split_spaces-ne-nil String.[] = λ e. cc
split_spaces-ne-nil (String.◌∷◌ c s) = λ e. ground (arith, split_spaces-ne-nil s)

join-empty :
    (pieces : List String) → pieces ≢ [] → join_spaces ("" ∷ pieces) ≡ " " <> join_spaces pieces
unfolding join_spaces
join-empty [] h = absurd (h refl)
join-empty (piece ∷ pieces) h = nil-append _

join-split : (s : String) → join_spaces (split_spaces s) ≡ s
unfolding split_spaces
join-split String.[] = unfold join_spaces in refl
join-split (String.◌∷◌ c s) =
    let rest = join-split s in
    let some_pieces = split_spaces-ne-nil s in
    elim (Bool-cases (code c == b' ')) [
      | inl space ↦ rw space (
          join-empty (split_spaces s) some_pieces
          ∙ ap (λ (t : String). " " <> t) rest
          ∙ cons-append " " "" s
          ∙ cons-eq-cons.1 (sym (Char-path c " " ((==_iff (code c) b' ').0 space)), nil-append s))
      | inr other ↦ rw other (
          join-push_front (String.◌∷◌ c "") (split_spaces s) some_pieces
          ∙ ap (λ (t : String). String.◌∷◌ c "" <> t) rest
          ∙ cons-append c "" s
          ∙ ap (λ (t : String). String.◌∷◌ c t) (nil-append s))
    ]

abbrev pub has_space : String → Bool
has_space String.[] = false
has_space (String.◌∷◌ c s) = code c == b' ' || has_space s

push_front-has_space :
    (c : Char) (pieces : List String) (p : String) (rest : List String)
    → (code c == b' ') ≡ false
    → ((q : String) (qs : List String) → pieces ≡ q ∷ qs → has_space q ≡ false)
    → push_front (String.◌∷◌ c "") pieces ≡ p ∷ rest
    → has_space p ≡ false
unfolding push_front
push_front-has_space c [] p rest other piece h =
    subst (λ (t : String). has_space t ≡ false) (head-eq_of_cons-eq h) (rw other refl)
push_front-has_space c (q ∷ qs) p rest other piece h =
    subst (λ (t : String). has_space t ≡ false)
      (sym (cons-append c "" q ∙ ap (λ (t : String). String.◌∷◌ c t) (nil-append q))
        ∙ head-eq_of_cons-eq h)
      (rw other (piece q qs refl))

head-has_space :
    (s p : String) (pieces : List String) → split_spaces s ≡ p ∷ pieces → has_space p ≡ false
unfolding split_spaces
head-has_space String.[] p pieces h =
    subst (λ (t : String). has_space t ≡ false) (head-eq_of_cons-eq h) refl
head-has_space (String.◌∷◌ c s) p pieces h =
    let shorter = head-has_space s in
    elim (Bool-cases (code c == b' ')) [
      | inl space ↦
          subst (λ (t : String). has_space t ≡ false) (head-eq_of_cons-eq (rw space at h)) refl
      | inr other ↦ push_front-has_space c (split_spaces s) p pieces other shorter (rw other at h)
    ]

split_spaces-cons :
    (c : Char) (s p : String) (pieces : List String)
    → (code c == b' ') ≡ false
    → split_spaces s ≡ p ∷ pieces
    → split_spaces (String.◌∷◌ c s) ≡ String.◌∷◌ c p ∷ pieces
unfolding split_spaces push_front
split_spaces-cons c s p pieces other h =
    rw (other, h)
      (ap (λ (t : String). t ∷ pieces)
        (cons-append c "" p ∙ ap (λ (t : String). String.◌∷◌ c t) (nil-append p)))

split-append :
    (p v : String) → has_space p ≡ false → split_spaces (p <> (" " <> v)) ≡ p ∷ split_spaces v
split-append String.[] v h =
    ap split_spaces (
      nil-append (" " <> v)
      ∙ cons-append " " "" v
      ∙ ap (λ (t : String). String.◌∷◌ " " t) (nil-append v))
    ∙ (unfold split_spaces in refl)
split-append (String.◌∷◌ c p) v h =
    let shorter = split-append p v in
    elim (Bool-cases (code c == b' ')) [
      | inl space ↦ absurd (let k = rw space at h in cc)
      | inr other ↦
          ap split_spaces (cons-append c p (" " <> v))
          ∙ split_spaces-cons c (p <> (" " <> v)) p (split_spaces v) other (shorter (rw other at h))
    ]

parameters_of-join :
    (config p v : String) (pieces : List String)
    → parameters_of config pieces ≡ ok (p, v)
    → (join_spaces pieces ≡ p <> (" " <> v)) × ((rest : List String) × (pieces ≡ p ∷ rest))
unfolding parameters_of join_spaces
parameters_of-join config p v [] h = absurd (cc)
parameters_of-join config p v (q ∷ []) h = absurd (cc)
parameters_of-join config p v (q ∷ r ∷ rs) h = (cc, (r ∷ rs, cc))

parameters_of-ok :
    (config p : String) (pieces : List String)
    → pieces ≢ []
    → parameters_of config (p ∷ pieces) ≡ ok (p, join_spaces pieces)
unfolding parameters_of
parameters_of-ok config p [] h = absurd (h refl)
parameters_of-ok config p (q ∷ qs) h = refl

-- getConfigParameters returns p and v exactly when the configuration is p, a space and v, and p has
-- no space: the first space divides them.
pub get_config_parameters_iff :
    (config p v : String)
    → (get_config_parameters config ≡ ok (p, v))
      ↔ ((config ≡ p <> (" " <> v)) × (has_space p ≡ false))
unfolding get_config_parameters
get_config_parameters_iff config p v = (
  (λ h.
      let (joined, (rest, pieces)) = parameters_of-join config p v (split_spaces config) h in
      (sym (join-split config) ∙ joined, head-has_space config p rest pieces)),
  (λ h.
      rw (h.0, split-append p v h.1)
        (parameters_of-ok _ p (split_spaces v) (split_spaces-ne-nil v)
          ∙ ap (λ (t : String). ok (p, t)) (join-split v))),
)
