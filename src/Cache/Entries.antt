-- ===== src/Cache/Entries.antt =====
-- The entries of the cache: one for each namespace and name.
use Prim.Native.Char.{code}
use text.Mathlib.TextLemmas.{cons-eq-cons, nil-append, cons-append}
use cndb_redis.Base.{
  ℕ, String, ◌<>◌, none, some, ◌≡◌, ◌≢◌, refl, sym, ap, ◌∙◌, arith, All, codes, eq_iff, ◌==◌,
  Bool-cases, Option-cases, inl, inr, ◌⊎◌, nat_eq_refl,
}
use cndb_redis.Base.Dict.{Dict, lookup, insert, lookup-insert, lookup-insert_self}
use cndb_redis.Api.Types.{K8s, RedisStandaloneSpec}
use cndb_redis.Api.Views.{View}
use cndb_redis.Cache.{
  Meta, get_namespaced_name, key_of, write, update_meta, checked_meta, updated_meta, locked_spec,
  cache_entry, get_meta, new_meta, add_meta, cache,
}

-- Kubernetes allows no slash in a namespace.
abbrev pub NoSlash : String → Type 0
NoSlash s = All (λ c. c ≢ b'/') (codes s)

slash_first : (name : String) → "" <> ("/" <> name) ≡ String.◌∷◌ "/" name
slash_first name = nil-append _ ∙ cons-append "/" "" name ∙ ap (String.◌∷◌ "/") (nil-append name)

slash_after :
    (s t name name' : String)
    → NoSlash s
    → NoSlash t
    → s <> ("/" <> name) ≡ t <> ("/" <> name')
    → (s ≡ t) × (name ≡ name')
slash_after String.[] String.[] name name' h k e =
    (refl, (cons-eq-cons.0 (sym (slash_first name) ∙ e ∙ slash_first name')).1)
slash_after String.[] (String.◌∷◌ d t) name name' h (k, _) e =
    absurd (k (ap code (sym (cons-eq-cons.0 (sym (slash_first name) ∙ e ∙ cons-append d t _)).0)))
slash_after (String.◌∷◌ c s) String.[] name name' (h, _) k e =
    absurd (h (ap code (cons-eq-cons.0 (sym (cons-append c s _) ∙ e ∙ slash_first name')).0))
slash_after (String.◌∷◌ c s) (String.◌∷◌ d t) name name' (_, h) (_, k) e =
    let (same, tails) = cons-eq-cons.0 (sym (cons-append c s _) ∙ e ∙ cons-append d t _) in
    let (rest, names) = slash_after s t name name' h k tails in (cc (same, rest), names)

-- Two resources have one key only if they have one namespace and one name.
pub get_namespaced_name_inj :
    (namespace namespace' name name' : String)
    → NoSlash namespace
    → NoSlash namespace'
    → get_namespaced_name namespace name ≡ get_namespaced_name namespace' name'
    → (namespace ≡ namespace') × (name ≡ name')
unfolding get_namespaced_name
get_namespaced_name_inj s t name name' h k e = slash_after s t name name' h k e

module _ {k : K8s} {O : Type 0} (v : View k O) where
  open v use {metadata, spec, status, with_spec, metadata-with_spec}

  pub key_of-with_spec : (o : O) (s : RedisStandaloneSpec k) → key_of v (with_spec o s) ≡ key_of v o
  unfolding key_of
  key_of-with_spec o s = rw metadata-with_spec

  -- what an update may do
  pub update_meta_cases :
      (store : ℕ → O) (meta : Meta) (p : ℕ)
      → (update_meta v store meta p ≡ (store, checked_meta v store meta))
        ⊎ (update_meta v store meta p ≡ (
          write store p (with_spec (store p) (locked_spec v store meta p)),
          updated_meta v store meta p,
        ))
  unfolding update_meta
  update_meta_cases store meta p =
      elim (Bool-cases
        ((metadata (store meta.obj)).generation == (metadata (store p)).generation)) [
          | inl same ↦ inl (rw same)
          | inr changed ↦ inr (rw changed)
        ]

  key_of-write :
      (store : ℕ → O) (p : ℕ) (s : RedisStandaloneSpec k)
      → key_of v (write store p (with_spec (store p) s) p) ≡ key_of v (store p)
  unfolding write
  key_of-write store p s = rw (nat_eq_refl p) (key_of-with_spec (store p) s)

  key_of-update_meta :
      (store : ℕ → O) (meta : Meta) (p : ℕ)
      → key_of v ((update_meta v store meta p).0 p) ≡ key_of v (store p)
  key_of-update_meta store meta p = elim (update_meta_cases store meta p) [
    | inl e ↦ rw e
    | inr e ↦ rw e (key_of-write store p (locked_spec v store meta p))
  ]

  pub cache-missing :
      (store : ℕ → O) (m : Dict Meta) (p : ℕ)
      → lookup (key_of v (store p)) m ≡ none
      → cache v store m p
        ≡ (store, insert (key_of v (store p)) (new_meta v store p) m, some (new_meta v store p))
  unfolding cache get_meta cache_entry add_meta
  cache-missing store m p missing = rw (missing, cache_entry, lookup-insert_self)

  pub cache-found :
      (store : ℕ → O) (m : Dict Meta) (p : ℕ) {meta : Meta}
      → lookup (key_of v (store p)) m ≡ some meta
      → cache v store m p ≡ (
        (update_meta v store meta p).0,
        insert (key_of v (store p)) (update_meta v store meta p).1 m,
        some (update_meta v store meta p).1,
      )
  unfolding cache get_meta cache_entry
  cache-found store m p {meta} found =
      rw (found, cache_entry, key_of-update_meta store meta p, lookup-insert_self)

  -- what stands in the map after a write under the key of a resource
  stored :
      (key : String) (meta : Meta) (m : Dict Meta)
      → (lookup key (insert key meta m) ≡ some meta)
        × ((j : String) → j ≢ key → lookup j (insert key meta m) ≡ lookup j m)
  stored key meta m = (
    lookup-insert_self key meta m,
    λ j h. lookup-insert key j meta m ∙ (ground (arith, eq_iff key j)),
  )

  -- Caching a resource always returns an entry, which is then the one stored under its key, and
  -- the entries under every other key stay as they are.
  pub cache_total :
      (store : ℕ → O) (m : Dict Meta) (p : ℕ)
      → (meta : Meta) × ((cache v store m p).2 ≡ some meta)
        × (lookup (key_of v (store p)) (cache v store m p).1 ≡ some meta)
        × ((j : String) → j ≢ key_of v (store p) → lookup j (cache v store m p).1 ≡ lookup j m)
  cache_total store m p = elim (Option-cases (lookup (key_of v (store p)) m)) [
    | inl missing ↦ (
      new_meta v store p,
      rw (cache-missing store m p missing),
      rw (cache-missing store m p missing) (stored _ _ m).0,
      rw (cache-missing store m p missing) (stored _ _ m).1,
    )
    | inr (meta, found) ↦ (
      (update_meta v store meta p).1,
      rw (cache-found store m p found),
      rw (cache-found store m p found) (stored _ _ m).0,
      rw (cache-found store m p found) (stored _ _ m).1,
    )
  ]
