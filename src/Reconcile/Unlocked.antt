-- ===== src/Reconcile/Unlocked.antt =====
-- What an update of the status does to the password that the cache keeps.
use cndb_redis.Base.{
  ℕ, String, some, ◌≡◌, refl, sym, ap, ◌∙◌, Result, ok, err, ◌==◌, false, nat_eq_refl,
  if◌then◌else◌, str_eq,
}
use cndb_redis.Base.Dict.{lookup}
use cndb_redis.Api.Status.{Status, Clock, desc_conditions_by_time}
use cndb_redis.Api.Types.{K8s}
use cndb_redis.Api.Views.{View}
use cndb_redis.Cache.{update, Meta, write, key_of, cache, update_meta, updated_meta, locked_spec}
use cndb_redis.Cache.Entries.{cache-found}
use cndb_redis.Client.{Notice, Services}
use cndb_redis.Ops.{Error}
use cndb_redis.Reconcile.{
  World, Writer, Steps, emit, notice_of, announced, answered, set_status, send_status, announce,
}

-- The client decodes the server's answer into the object that was sent, and a password that is
-- empty is left out of the answer, so the object keeps its own.
unfoldable pub kept : String → String → String
kept sent held = if str_eq held "" then sent else held

module _ {k : K8s} {O W : Type 0} (v : View k O) (api : Services W) (writer : Writer O W)
    (steps : Steps O W) (server_password : W → String → String → String) where
  -- The password that the server holds for the resource of a namespace and a name. A write of the
  -- status subresource ignores the specification and answers with the stored object, and events
  -- store nothing.
  pub record AnswersStored : Type 0 where
    pub password-put_status :
        (o o' : O) (w w' : W)
        → writer.put_status o w ≡ (ok o', w')
        → (v.spec o').password
          ≡ kept
              (v.spec o).password
              (server_password w (v.metadata o).namespace (v.metadata o).name)
    pub password-emit :
        (notice : Notice) (w : W) (namespace name : String)
        → server_password (api.emit notice w) namespace name ≡ server_password w namespace name

  -- what an answered write of the status leaves in the object's password
  unfoldable pub answered_kept : O → W → String
  answered_kept o w =
      kept (v.spec o).password (server_password w (v.metadata o).namespace (v.metadata o).name)

  -- the status is not read
  kept-with_status :
      (o : O) (s : Status) (w : W) → answered_kept (v.with_status o s) w ≡ answered_kept o w
  unfolding answered_kept
  kept-with_status o s w = rw (v.spec-with_status o s, v.metadata-with_status o s) refl

  module _ (server : AnswersStored) where
    answered-password :
        (p : ℕ) (s t : World O W) (q : Result Error O × W)
        → writer.put_status (s.store p) s.outside ≡ q
        → answered v api writer steps p s q ≡ (ok tt, t)
        → (v.spec (t.store p)).password ≡ answered_kept (s.store p) s.outside
    unfolding answered write answered_kept
    answered-password p s t (ok o, w) put h =
        let stored : write s.store p o ≡ t.store =
          ap (λ (q : Result Error (Unit {0}) × World O W). q.1.store) h in
        sym (ap (λ (store : ℕ → O). (v.spec (store p)).password) stored)
        ∙ rw nat_eq_refl (server.password-put_status (s.store p) o s.outside w put)
    answered-password p s t (err e, w) put h = absurd (cc)

    -- the status is set, and nothing else
    kept-set_status :
        (p : ℕ) (f : Status → Clock → Status) (s : World O W) (w : W)
        → answered_kept ((set_status v api writer steps p f s).1.store p) w
          ≡ answered_kept (s.store p) w
    unfolding set_status write
    kept-set_status p f s w =
        rw nat_eq_refl
          (kept-with_status (s.store p) (f (v.status (s.store p)) (writer.clock s.outside)) w)

    send_status-password :
        (p : ℕ) (s t : World O W)
        → send_status v api writer steps p s ≡ (ok tt, t)
        → (v.spec (t.store p)).password ≡ answered_kept (s.store p) s.outside
    unfolding send_status set_status
    send_status-password p s t h =
        let by_time : Status → Clock → Status = λ status c. desc_conditions_by_time status in
        let sorted = (set_status v api writer steps p by_time s).1 in
        answered-password p sorted t (writer.put_status (sorted.store p) sorted.outside) refl h
        ∙ kept-set_status p by_time s s.outside

    announce-password :
        (meta : Meta) (s t : World O W)
        → announce v api writer steps update meta s ≡ (ok tt, t)
        → (v.spec (t.store meta.obj)).password ≡ answered_kept (s.store meta.obj) s.outside
    unfolding announce emit set_status answered_kept
    announce-password meta s t h =
        let notice = notice_of meta.status meta.message in
        let told = (emit v api writer steps notice s).1 in
        let f = announced meta.status meta.message in
        let marked = (set_status v api writer steps meta.obj f told).1 in
        send_status-password meta.obj marked t h
        ∙ kept-set_status meta.obj f told told.outside
        ∙ ap (kept (v.spec (s.store meta.obj)).password) (
            server.password-emit notice s.outside (v.metadata (s.store meta.obj)).namespace
              (v.metadata (s.store meta.obj)).name)

    -- The cache does not keep a password through updateStatus. Once an update has been announced with
    -- success, the object of its entry has the password that the server holds for the resource of
    -- that namespace and name, whatever password the cache had put there, or, where the server holds
    -- an empty one, the password it had. With the next change of the resource, the entry and its
    -- object still there, that password is the entry's and the new object's, too: a new password that is not empty is taken over by the second
    -- change. The API server answers a write of the status with the stored object, which is decoded
    -- into the one that was sent, and an event changes no stored password.
    pub announce-cache-password :
        (meta : Meta) (s t u : World O W) (p : ℕ) (held : String)
        → server_password s.outside
            (v.metadata (s.store meta.obj)).namespace
            (v.metadata (s.store meta.obj)).name
          ≡ held
        → announce v api writer steps update meta s ≡ (ok tt, t)
        → u.store meta.obj ≡ t.store meta.obj
        → lookup (key_of v (u.store p)) u.entries ≡ some meta
        → ((v.metadata (u.store meta.obj)).generation == (v.metadata (u.store p)).generation)
          ≡ false
        → ((v.spec (t.store meta.obj)).password
            ≡ (if str_eq held "" then (v.spec (s.store meta.obj)).password else held))
          × ((meta' : Meta) × ((cache v u.store u.entries p).2 ≡ some meta')
              × (meta'.password ≡ (v.spec (t.store meta.obj)).password)
              × ((v.spec ((cache v u.store u.entries p).0 p)).password
                  ≡ (v.spec (t.store meta.obj)).password))
    unfolding update_meta updated_meta locked_spec write answered_kept kept
    announce-cache-password meta s t u p held holds told same found changed =
        let old : (v.spec (u.store meta.obj)).password ≡ (v.spec (t.store meta.obj)).password =
          ap (λ (o : O). (v.spec o).password) same in
        (
          announce-password meta s t told ∙ ap (kept (v.spec (s.store meta.obj)).password) holds,
          (
            updated_meta v u.store meta p,
            rw (cache-found v u.store u.entries p found, changed) refl,
            old,
            rw (cache-found v u.store u.entries p found, changed, nat_eq_refl, v.spec-with_spec)
                old,
          ),
        )
