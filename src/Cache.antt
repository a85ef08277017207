-- ===== src/Cache.antt =====
-- controllers/redissentinel/cache/cahce.go, and controllers/redisstandalone/cache/cache.go, which
-- is the same over RedisStandalone: what the operator remembers of each resource. Objects live in a
-- store and are shared by pointers: an entry points to the object that a reconciliation fetched.
pub mod Entries
pub mod Passwords
pub mod Ladder
use cndb_redis.Base.{
  ℕ, ◌+◌, String, ◌<>◌, Bool, true, false, not, ◌&&◌, ◌||◌, Option, none, some, List, [], ◌∷◌,
  if◌then◌else◌, str_eq, ◌==◌,
}
use cndb_redis.Base.Int.{ℤ, ltb_ℤ}
use cndb_redis.Base.Dict.{Dict, lookup, insert, erase}
use cndb_redis.Strconv.{format_int}
use cndb_redis.Api.Status.{
  Condition, Status, condition_creating, condition_updating, condition_upgrading, condition_scaling,
  condition_scaling_down,
}
use cndb_redis.Api.Types.{K8s, RedisStandaloneSpec}
use cndb_redis.Api.Views.{View}

pub data StateType : Type 0 where
  create update check : StateType

-- `obj` is a pointer into the store, and `password` is the field of the AuthConfig that the entry owns.
pub record Meta : Type 0 where
  pub namespace : String
  pub name : String
  pub state : StateType
  pub size : ℤ
  pub password : String
  pub obj : ℕ
  pub status : String
  pub message : String
  pub config : Option (Dict String)

unfoldable pub get_namespaced_name : String → String → String
get_namespaced_name namespace name = namespace <> ("/" <> name)

unfoldable pub no_conditions : List Condition → Bool
no_conditions [] = true
no_conditions (c ∷ cs) = false

-- reflect.DeepEqual with RedisSentinelStatus{}
unfoldable pub is_empty_status : Status → Bool
unfolding no_conditions
is_empty_status s = no_conditions s.conditions && (str_eq s.master_ip "" && str_eq s.sentinel_ip "")

module _ {O : Type 0} where
  -- the store of objects
  unfoldable pub write : (ℕ → O) → ℕ → O → ℕ → O
  write store p o q = if p == q then o else store q

module _ (k : K8s) where
  -- The test is `==` in the source too.
  unfoldable pub is_images_changed : RedisStandaloneSpec k → RedisStandaloneSpec k → Bool
  is_images_changed old new = str_eq old.image new.image

  unfoldable pub is_scaling_down : RedisStandaloneSpec k → RedisStandaloneSpec k → Bool
  is_scaling_down old new = ltb_ℤ new.size old.size

  unfoldable pub is_scaling_up : RedisStandaloneSpec k → RedisStandaloneSpec k → Bool
  is_scaling_up old new = ltb_ℤ old.size new.size

  unfoldable pub is_resources_change : RedisStandaloneSpec k → RedisStandaloneSpec k → Bool
  is_resources_change old new =
      not (
        k.quantity_size (k.memory old.resources.limits)
        == k.quantity_size (k.memory new.resources.limits))
      || not (
          k.quantity_size (k.cpu old.resources.limits)
          == k.quantity_size (k.cpu new.resources.limits))

  -- the status and the message that Update leaves, after its ladder of tests
  unfoldable pub update_status : RedisStandaloneSpec k → RedisStandaloneSpec k → String
  unfolding is_images_changed is_scaling_down is_scaling_up
  update_status old new =
      let s1 = if is_images_changed old new then condition_upgrading else condition_updating in
      let s2 = if is_scaling_down old new then condition_scaling_down else s1 in
      if is_scaling_up old new then condition_scaling else s2

  unfoldable pub update_message : RedisStandaloneSpec k → RedisStandaloneSpec k → String
  unfolding is_images_changed is_scaling_down is_scaling_up is_resources_change
  update_message old new =
      let m1 =
        if is_images_changed old new
        then "Upgrading to " <> new.image
        else "Updating redis config" in
      let sizes = format_int old.size <> (" to: " <> format_int new.size) in
      let m2 = if is_scaling_down old new then "Scaling down form: " <> sizes else m1 in
      let m3 = if is_scaling_up old new then "Scaling up form: " <> sizes else m2 in
      if is_resources_change old new then "Updating compute resources" else m3

module _ {k : K8s} {O : Type 0} (v : View k O) where
  open v use {metadata, spec, status, with_spec}

  unfoldable pub new_meta : (ℕ → O) → ℕ → Meta
  new_meta store p = record {
    namespace = (metadata (store p)).namespace;
    name = (metadata (store p)).name;
    state = create;
    size = (spec (store p)).size;
    password = (spec (store p)).password;
    obj = p;
    status = condition_creating;
    message = v.bootstrap_message;
    config = (spec (store p)).config;
  }

  -- the new spec, with the old password
  unfoldable pub locked_spec : (ℕ → O) → Meta → ℕ → RedisStandaloneSpec k
  locked_spec store meta p = record (spec (store p)) { password = (spec (store meta.obj)).password }

  unfoldable pub checked_meta : (ℕ → O) → Meta → Meta
  unfolding is_empty_status
  checked_meta store meta = record meta {
    state = if is_empty_status (status (store meta.obj)) then create else check;
  }

  unfoldable pub updated_meta : (ℕ → O) → Meta → ℕ → Meta
  unfolding locked_spec
  updated_meta store meta p =
      let old = spec (store meta.obj) in
      record meta {
        state = update;
        size = old.size;
        password = old.password;
        obj = p;
        status = update_status k old (locked_spec store meta p);
        message = update_message k old (locked_spec store meta p);
      }

  -- MetaMap.Update: the new object gets the old password, in place
  unfoldable pub update_meta : (ℕ → O) → Meta → ℕ → (ℕ → O) × Meta
  update_meta store meta p =
      if (metadata (store meta.obj)).generation == (metadata (store p)).generation
      then (store, checked_meta store meta)
      else (
        write store p (with_spec (store p) (locked_spec store meta p)),
        updated_meta store meta p,
      )

  unfoldable pub key_of : O → String
  unfolding get_namespaced_name
  key_of o = get_namespaced_name (metadata o).namespace (metadata o).name

  -- MetaMap.Get; the type assertion panics where there is no entry
  unfoldable pub get_meta : (ℕ → O) → Dict Meta → ℕ → Option Meta
  get_meta store m p = lookup (key_of (store p)) m

  -- MetaMap.Add
  unfoldable pub add_meta : (ℕ → O) → Dict Meta → ℕ → Dict Meta
  unfolding new_meta
  add_meta store m p = insert (key_of (store p)) (new_meta store p) m

  -- MetaMap.Del
  unfoldable pub del_meta : Dict Meta → O → Dict Meta
  del_meta m o = erase (key_of o) m

  -- the rest of MetaMap.Cache after Load
  unfoldable pub cache_entry : (ℕ → O) → Dict Meta → ℕ → Option Meta → (ℕ → O) × Dict Meta
  cache_entry store m p none = (store, add_meta store m p)
  cache_entry store m p (some meta) =
      let (store', meta') = update_meta store meta p in (store', insert (key_of (store p)) meta' m)

  unfoldable pub cache : (ℕ → O) → Dict Meta → ℕ → (ℕ → O) × Dict Meta × Option Meta
  unfolding cache_entry add_meta
  cache store m p =
      let (store', m') = cache_entry store m p (get_meta store m p) in
      (store', m', get_meta store' m' p)
