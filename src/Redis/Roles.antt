-- ===== src/Redis/Roles.antt =====
-- What redis documents of SLAVEOF, and the roles that MakeMaster and MakeSlaveOf give to a node.
use text.Mathlib.TextLemmas.{
  append_cancel_left, append_cancel_right, append_assoc, cons-append, nil-append,
}
use cndb_redis.Base.{
  String, ◌<>◌, true, false, ◌||◌, ◌≡◌, ◌≢◌, sym, ap, ◌∙◌, arith, Bool-cases, inl, inr, ok,
}
use cndb_redis.Redis.Params.{has_colon, join_host_port, redis_port, Options, set_options}
use cndb_redis.Redis.Commands.{RedisConn, redis_client, make_master, make_slave_of}
use cndb_redis.Sentinel.Heal.Replication.{Role, Replicates}

-- SLAVEOF that succeeds: NO ONE makes the node at the address a master, another host makes it a
-- replica of that host, and other nodes keep their roles.
pub record SlaveOf {W : Type 0} (conn : RedisConn W) (role : W → String → Role) : Type 0 where
  pub no_one :
      (o : Options) (w w' : W)
      → conn.slave_of o "NO" "ONE" w ≡ (ok tt, w')
      → (role w' o.addr ≡ Role.master) × ((a : String) → a ≢ o.addr → role w' a ≡ role w a)
  pub of_host :
      (o : Options) (host : String) (w w' : W)
      → conn.slave_of o host redis_port w ≡ (ok tt, w')
      → (role w' o.addr ≡ Role.slave_of host) × ((a : String) → a ≢ o.addr → role w' a ≡ role w a)

has_colon-append : (s t : String) → has_colon (s <> t) ≡ (has_colon s || has_colon t)
unfolding has_colon
has_colon-append String.[] t = ap has_colon (nil-append t)
has_colon-append (String.◌∷◌ c s) t = rw (cons-append c s t, has_colon-append s t) (ground arith)

-- the address in brackets, seen as a host without them
bracketed : (i port : String) → "[" <> (i <> ("]:" <> port)) ≡ ("[" <> (i <> "]")) <> (":" <> port)
bracketed i port =
    let close : "]" <> (":" <> port) ≡ "]:" <> port =
      cons-append "]" "" (":" <> port)
      ∙ ap (λ (t : String). String.◌∷◌ "]" t) (nil-append (":" <> port))
      ∙ sym (cons-append "]" ":" port) in
    sym (
      append_assoc "[" (i <> "]") (":" <> port)
      ∙ ap (λ (t : String). "[" <> t)
          (append_assoc i "]" (":" <> port) ∙ ap (λ (t : String). i <> t) close))

has_colon-bracketed : (i : String) → has_colon i ≡ true → has_colon ("[" <> (i <> "]")) ≡ true
has_colon-bracketed i h =
    has_colon-append "[" (i <> "]")
    ∙ rw (has_colon-append i "]", h) (unfold has_colon in ground arith)

-- a host with a colon is never taken for one without
no_mixture :
    (i j port : String)
    → has_colon i ≡ true
    → has_colon j ≡ false
    → "[" <> (i <> ("]:" <> port)) ≢ j <> (":" <> port)
no_mixture i j port h k e =
    let same = append_cancel_right _ _ _ (sym (bracketed i port) ∙ e) in
    let colon = has_colon-bracketed i h in cc

-- two hosts have the same address at a port only if they are the same host
pub join_host_port-injective :
    (i j port : String) → join_host_port i port ≡ join_host_port j port → i ≡ j
unfolding join_host_port
join_host_port-injective i j port h = elim (Bool-cases (has_colon i)) [
  | inl a ↦ elim (Bool-cases (has_colon j)) [
    | inl b ↦ append_cancel_right _ _ _ (append_cancel_left _ _ _ (rw (a, b) at h))
    | inr b ↦ absurd (no_mixture i j port a b (rw (a, b) at h))
  ]
  | inr a ↦ elim (Bool-cases (has_colon j)) [
    | inl b ↦ absurd (no_mixture j i port b a (sym (rw (a, b) at h)))
    | inr b ↦ append_cancel_right _ _ _ (rw (a, b) at h)
  ]
]

-- The client's MakeMaster and MakeSlaveOf do what the healing relies on: MakeMaster that succeeds
-- makes the node of the address a master, MakeSlaveOf makes it a replica of the given node, and the
-- nodes of all other addresses keep their roles, provided that SLAVEOF does what redis documents.
pub redis_client-Replicates :
    {W : Type 0} (conn : RedisConn W) (role : W → String → Role)
    → SlaveOf conn role
    → Replicates (redis_client conn) (λ w ip. role w (join_host_port ip redis_port))
unfolding make_master make_slave_of set_options
redis_client-Replicates conn role laws = record {
  make_master-role = λ ip auth w w' h.
      let (at, others) = laws.no_one (set_options ip redis_port auth) w w' h in
      (
        at,
        λ j ne.
            others (join_host_port j redis_port)
              (λ e. ne (join_host_port-injective j ip redis_port e)),
      );
  make_slave_of-role = λ ip to auth w w' h.
      let (at, others) = laws.of_host (set_options ip redis_port auth) to w w' h in
      (
        at,
        λ j ne.
            others (join_host_port j redis_port)
              (λ e. ne (join_host_port-injective j ip redis_port e)),
      );
}
