-- ===== src/Samples/Unlocking.antt =====
-- A standalone redis whose user changes the password, and an API server that keeps the change.
use cndb_redis.Base.{
  ℕ, ◌+◌, String, none, some, false, [], ◌∷◌, ◌≡◌, refl, sym, ap, ok, if◌then◌else◌, ◌==◌, str_eq,
}
use cndb_redis.Base.Int.{pos}
use cndb_redis.Base.Dict.{lookup}
use cndb_redis.Api.Types.{RedisStandalone}
use cndb_redis.Api.Views.{standalone_view}
use cndb_redis.Cache.{update, Meta, key_of, cache, write, get_namespaced_name}
use cndb_redis.Reconcile.{World, Writer, announce}
use cndb_redis.Reconcile.Unlocked.{AnswersStored, kept, announce-cache-password}
use cndb_redis.Samples.Objects.{text_k8s, single, metadata, clock}
use cndb_redis.Samples.Reconciled.{quiet, steps}

abbrev O : Type 0
O = RedisStandalone text_k8s

abbrev with_password : String → O → O
with_password password o = record o { spec = record o.spec { password = password } }

-- the password of each resource
abbrev stored : ℕ → String → String → String
stored w namespace name = if str_eq name "shop" then "changed" else ""

abbrev answer : O → O
answer o = with_password (kept o.spec.password (stored 0 o.metadata.namespace o.metadata.name)) o

abbrev answering : Writer O ℕ
answering = record {
  put_spec = λ o w. (ok (answer o), w + 1);
  put_status = λ o w. (ok (answer o), w + 1);
  clock = clock;
}

answering_stored : AnswersStored (standalone_view text_k8s) quiet answering steps stored
answering_stored = record {
  password-put_status =
      λ o o' w w' h. let same : answer o ≡ o' = cc in sym (ap (λ (x : O). x.spec.password) same);
  password-emit = λ notice w namespace name. refl;
}

-- the entry whose object still has the first password
abbrev locked : Meta
locked = record {
  namespace = "prod";
  name = "shop";
  state = update;
  size = pos 1;
  password = "secret";
  obj = 0;
  status = "Updating";
  message = "Updating redis config";
  config = none;
}

abbrev first : World O ℕ
first = record {
  store = λ p. with_password "secret" single;
  entries = ("prod/shop", locked) ∷ [];
  outside = 0;
}

after_update : World O ℕ
unfolding announce
after_update = (announce (standalone_view text_k8s) quiet answering steps update locked first).1

-- the next change of the resource, at pointer 1
abbrev next : World O ℕ
next = record after_update {
  store = λ p. if p == 1 then record single { metadata = metadata 9 } else after_update.store p;
}

update_run :
    announce (standalone_view text_k8s) quiet answering steps update locked first
    ≡ (ok tt, after_update)
unfolding announce after_update
update_run = refl

other_generation :
    ((next.store 0).metadata.generation == (next.store 1).metadata.generation) ≡ false
unfolding after_update announce write
other_generation = refl

entry_found : lookup (key_of (standalone_view text_k8s) (next.store 1)) next.entries ≡ some locked
unfolding after_update announce key_of get_namespaced_name lookup
entry_found = refl

announce-cache-password_example :
    ((after_update.store 0).spec.password ≡ "changed")
    × ((meta' : Meta) × ((cache (standalone_view text_k8s) next.store next.entries 1).2
          ≡ some meta')
        × (meta'.password ≡ (after_update.store 0).spec.password)
        × (((cache (standalone_view text_k8s) next.store next.entries 1).0 1).spec.password
            ≡ (after_update.store 0).spec.password))
announce-cache-password_example =
    announce-cache-password (standalone_view text_k8s) quiet answering steps stored answering_stored
      locked first after_update next 1 "changed" refl update_run refl entry_found other_generation
