-- ===== src/Redis/Replicas.antt =====
-- The number of replicas that a sentinel counts.
use mathlib.Core.List.{map}
use cndb_redis.Base.{
  length, ℕ, ◌+◌, String, Bool, false, List, [], ◌∷◌, ◌≡◌, refl, ap, ◌∙◌, arith, Bool-cases, inl,
  inr, if◌then◌else◌, str_eq, ok, Option, none, some, str_eq_comm,
}
use cndb_redis.Base.Dict.{Dict, lookup}
use cndb_redis.Base.Int.{wrap_parts}
use cndb_redis.Ops.{Op, pure, continue}
use cndb_redis.Redis.Params.{set_options, sentinel_port}
use cndb_redis.Redis.Commands.{
  Value, fields, RedisConn, master_name, is_sentinel_ready, slave_info_field_by_name, count_slaves,
  get_number_sentinel_slaves_in_memory,
}

-- the reply about one replica: each name is followed by its value
abbrev pub reply : Dict String → List String
reply [] = []
reply ((name, value) ∷ rest) = name ∷ value ∷ reply rest

abbrev pub is_zero : Option String → Bool
is_zero none = false
is_zero (some priority) = str_eq priority "0"

-- the replicas but those of priority 0, which are never promoted
abbrev pub eligible : List (Dict String) → ℕ
eligible [] = 0
eligible (d ∷ ds) = eligible ds + (if is_zero (lookup "slave-priority" d) then 0 else 1)

field-reply :
    (name : String) (d : Dict String)
    → str_eq (slave_info_field_by_name name (reply d)) "0" ≡ is_zero (lookup name d)
unfolding slave_info_field_by_name lookup
field-reply name [] = refl
field-reply name ((key, value) ∷ rest) = ground (arith, field-reply name rest, str_eq_comm name key)

abbrev pub replies : List (Dict String) → List Value
replies ds = map (λ d. fields (reply d)) ds

count_slaves-map :
    {W : Type 0} (infos : List (Dict String)) (m : ℕ)
    → count_slaves {W = W} (replies infos) (m + length (replies infos)) ≡ pure (m + eligible infos)
unfolding count_slaves
count_slaves-map [] m = refl
count_slaves-map {W} (info ∷ infos) m =
    let shorter = count_slaves-map {W = W} infos in
    let with_start = λ (n k : ℕ) (e : n ≡ k + length (replies infos)).
      ap (λ (t : ℕ). count_slaves {W = W} (replies infos) t) e ∙ shorter k in
    let read = field-reply "slave-priority" info in
    elim (Bool-cases (is_zero (lookup "slave-priority" info))) [
      | inl zero_priority ↦
          with_start _ m (ground arith) ∙ ap (λ (t : ℕ). pure (m + t)) (ground arith)
      | inr counted ↦ with_start _ (m + 1) (ground arith) ∙ ap (λ (t : ℕ). pure t) (ground arith)
    ]

count_slaves-length :
    {W : Type 0} (infos : List (Dict String))
    → count_slaves {W = W} (replies infos) (length (replies infos)) ≡ pure (eligible infos)
count_slaves-length {W} infos =
    ap (λ (t : ℕ). count_slaves {W = W} (replies infos) t) (omega arith)
    ∙ count_slaves-map {W = W} infos 0
    ∙ ap (λ (t : ℕ). pure t) (omega arith)

-- Of a sentinel that reports its master as ok and lists replicas, each with its fields as names and
-- values in turn, the number of replicas is that of the listed ones whose field slave-priority is
-- missing or not 0, as an int32, and the two queries are all that is sent.
pub get_number_sentinel_slaves_in_memory-eligible :
    {W : Type 0} (conn : RedisConn W) (ip auth report : String) (infos : List (Dict String))
    (w v v' : W)
    → conn.info (set_options ip sentinel_port auth) "sentinel" w ≡ (ok report, v)
    → is_sentinel_ready report v ≡ (ok tt, v)
    → conn.slice_cmd
        (set_options ip sentinel_port auth)
        ("sentinel" ∷ "slaves" ∷ master_name ∷ [])
        v
      ≡ (ok (replies infos), v')
    → get_number_sentinel_slaves_in_memory conn ip auth w
      ≡ (ok (wrap_parts 32 (eligible infos) 0), v')
unfolding get_number_sentinel_slaves_in_memory
get_number_sentinel_slaves_in_memory-eligible {W} conn ip auth report infos w v v' h ready listed =
    rw (h, ready, listed)
      (ap (λ (m : Op W ℕ). continue (m v') (λ n. pure (wrap_parts 32 n 0)))
        (count_slaves-length {W = W} infos))
