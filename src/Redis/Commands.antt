-- ===== src/Redis/Commands.antt =====
-- The commands that are sent to a node, and what is read from the answers.
use cndb_redis.Base.{
  length, ℕ, ◌-◌, String, Bool, false, Option, none, some, List, [], ◌∷◌, if◌then◌else◌, str_eq,
  codes, Result, ok, err,
}
use cndb_redis.Base.Int.{ℤ, pos_part, neg_part, wrap_parts}
use cndb_redis.Base.Dict.{Dict, insert}
use cndb_redis.Strconv.{ParseError, parse_int}
use cndb_redis.Ops.{Op, Error, failure, pure, fail, ◌>>=◌, ◌>>◌, for_each}
use cndb_redis.Client.{RedisClient}
use cndb_redis.Redis.Match.{is_number, is_lower, is_host, find_submatch, contains_text}
use cndb_redis.Redis.Params.{Options, set_options, redis_port, sentinel_port, get_config_parameters}

-- an element of a reply; a list of the fields of a replica is kept as the texts it holds
pub data Value : Type 0 where
  text : String → Value
  fields : List String → Value

-- go-redis: a command sent to the node of the options, with the kind of its reply
pub record RedisConn (W : Type 0) : Type 0 where
  pub info : Options → String → Op W String
  pub slice_cmd : Options → List String → Op W (List Value)
  pub int_cmd : Options → List String → Op W ℤ
  pub bool_cmd : Options → List String → Op W Bool
  pub status_cmd : Options → List String → Op W (Unit {0})
  pub slave_of : Options → String → String → Op W (Unit {0})
  pub config_get : Options → String → Op W (List Value)
  pub config_set : Options → String → String → Op W (Unit {0})

abbrev pub master_name : String
master_name = "mymaster"

abbrev pub default_down_after_milliseconds : String
default_down_after_milliseconds = "5000"

abbrev pub default_failovertimeout : String
default_failovertimeout = "3000"

abbrev pub default_parallel_syncs : String
default_parallel_syncs = "2"

-- where the program panics: a failed type assertion or an index out of range
abbrev pub panic : {W A : Type 0} → Op W A
panic = fail (failure "panic")

unfoldable pub status_is_ok : Option String → Bool
status_is_ok none = false
status_is_ok (some status) = str_eq status "ok"

unfoldable pub is_sentinel_ready : {W : Type 0} → String → Op W (Unit {0})
unfolding status_is_ok find_submatch
is_sentinel_ready info =
    if status_is_ok (find_submatch "status=" is_lower info)
    then pure tt
    else fail (failure "sentinel not ready")

-- strconv.Atoi, and the conversion to int32
unfoldable pub int32_of : {W : Type 0} → Result ParseError ℤ → Op W ℤ
int32_of (ok n) = pure (wrap_parts 32 (pos_part n) (neg_part n))
int32_of (err e) = fail (failure "strconv.Atoi")

unfoldable pub number_in : {W : Type 0} → Option String → Op W ℤ
unfolding int32_of parse_int
number_in none = fail (failure "seninel regex not found")
number_in (some digits) = int32_of (parse_int (codes digits))

-- the value that stands behind the name; names stand at even positions
unfoldable pub slave_info_field_by_name : String → List String → String
slave_info_field_by_name name [] = ""
slave_info_field_by_name name (key ∷ []) = ""
slave_info_field_by_name name (key ∷ value ∷ rest) =
    let later = slave_info_field_by_name name rest in if str_eq key name then value else later

-- nSlaves, counted down for each replica of priority 0
unfoldable pub count_slaves : {W : Type 0} → List Value → ℕ → Op W ℕ
unfolding slave_info_field_by_name
count_slaves [] n = pure n
count_slaves (text s ∷ blobs) n = panic
count_slaves (fields info ∷ blobs) n =
    count_slaves blobs
      (if str_eq (slave_info_field_by_name "slave-priority" info) "0" then n - 1 else n)

-- res[3].(string)
unfoldable pub fourth_text : {W : Type 0} → List Value → Op W String
fourth_text (a ∷ b ∷ c ∷ text ip ∷ rest) = pure ip
fourth_text other = panic

unfoldable pub text_or_empty : Option String → String
text_or_empty none = ""
text_or_empty (some s) = s

-- the pairs of a reply to CONFIG GET
unfoldable pub pairs_of : {W : Type 0} → List Value → Dict String → Op W (Dict String)
pairs_of [] m = pure m
pairs_of (text key ∷ text value ∷ rest) m = pairs_of rest (insert key value m)
pairs_of other m = panic

unfoldable pub checked_parameters :
    {W : Type 0} → Result String (String × String) → Op W (String × String)
checked_parameters (ok parameters) = pure parameters
checked_parameters (err message) = fail (failure message)

-- a command whose error is not looked at
unfoldable pub ignoring :
    {W A : Type 0} → Result Error A × W → Op W (Unit {0}) → Result Error (Unit {0}) × W
ignoring (r, w) next = next w

module _ {W : Type 0} (conn : RedisConn W) where
  unfoldable pub get_number_sentinels_in_memory : String → String → Op W ℤ
  unfolding set_options is_sentinel_ready number_in find_submatch
  get_number_sentinels_in_memory ip auth = do
    info ← conn.info (set_options ip sentinel_port auth) "sentinel"
    is_sentinel_ready info
    number_in (find_submatch "sentinels=" is_number info)

  unfoldable pub get_number_sentinel_slaves_in_memory : String → String → Op W ℤ
  unfolding set_options is_sentinel_ready count_slaves
  get_number_sentinel_slaves_in_memory ip auth = do
    info ← conn.info (set_options ip sentinel_port auth) "sentinel"
    is_sentinel_ready info
    blobs ←
        conn.slice_cmd (set_options ip sentinel_port auth)
          ("sentinel" ∷ "slaves" ∷ master_name ∷ [])
    n ← count_slaves blobs (length blobs)
    pure (wrap_parts 32 n 0)

  unfoldable pub reset_sentinel : String → String → Op W (Unit {0})
  unfolding set_options
  reset_sentinel ip auth = do
    _ ← conn.int_cmd (set_options ip sentinel_port auth) ("SENTINEL" ∷ "reset" ∷ "*" ∷ [])
    pure tt

  unfoldable pub get_slave_master_ip : String → String → Op W String
  unfolding set_options find_submatch text_or_empty
  get_slave_master_ip ip auth = do
    info ← conn.info (set_options ip redis_port auth) "replication"
    pure (text_or_empty (find_submatch "master_host:" is_host info))

  unfoldable pub is_master : String → String → Op W Bool
  unfolding set_options contains_text
  is_master ip auth = do
    info ← conn.info (set_options ip redis_port auth) "replication"
    pure (contains_text info "role:master")

  unfoldable pub set_sentinel : Options → String → String → Op W (Unit {0})
  set_sentinel o parameter value =
      conn.status_cmd o ("SENTINEL" ∷ "SET" ∷ master_name ∷ parameter ∷ value ∷ [])

  unfoldable pub set_auth_pass : Options → String → Op W (Unit {0})
  unfolding set_sentinel
  set_auth_pass o auth = if str_eq auth "" then pure tt else set_sentinel o "auth-pass" auth

  -- from SENTINEL MONITOR on
  unfoldable pub monitor_anew : Options → String → String → String → Op W (Unit {0})
  unfolding set_sentinel set_auth_pass
  monitor_anew o monitor quorum auth = do
    _ ← conn.bool_cmd o ("SENTINEL" ∷ "MONITOR" ∷ master_name ∷ monitor ∷ redis_port ∷ quorum ∷ [])
    set_auth_pass o auth
    set_sentinel o "down-after-milliseconds" default_down_after_milliseconds
    set_sentinel o "failover-timeout" default_failovertimeout
    set_sentinel o "parallel-syncs" default_parallel_syncs

  unfoldable pub monitor_redis : String → String → String → String → Op W (Unit {0})
  unfolding set_options monitor_anew ignoring
  monitor_redis ip monitor quorum auth w =
      let o = set_options ip sentinel_port auth in
      ignoring (conn.bool_cmd o ("SENTINEL" ∷ "REMOVE" ∷ master_name ∷ []) w)
        (monitor_anew o monitor quorum auth)

  unfoldable pub make_master : String → String → Op W (Unit {0})
  unfolding set_options
  make_master ip auth = conn.slave_of (set_options ip redis_port auth) "NO" "ONE"

  unfoldable pub make_slave_of : String → String → String → Op W (Unit {0})
  unfolding set_options
  make_slave_of ip master_ip auth =
      conn.slave_of (set_options ip redis_port auth) master_ip redis_port

  unfoldable pub get_sentinel_monitor : String → String → Op W String
  unfolding set_options fourth_text
  get_sentinel_monitor ip auth = do
    res ←
        conn.slice_cmd (set_options ip sentinel_port auth)
          ("SENTINEL" ∷ "master" ∷ master_name ∷ [])
    fourth_text res

  unfoldable pub apply_sentinel_config : Options → String → String → Op W (Unit {0})
  apply_sentinel_config o parameter value =
      conn.status_cmd o ("SENTINEL" ∷ "set" ∷ master_name ∷ parameter ∷ value ∷ [])

  unfoldable pub apply_setting : Options → String → Op W (Unit {0})
  unfolding checked_parameters get_config_parameters apply_sentinel_config
  apply_setting o config = do
    parameters ← checked_parameters (get_config_parameters config)
    apply_sentinel_config o parameters.0 parameters.1

  unfoldable pub set_custom_sentinel_config : String → List String → String → Op W (Unit {0})
  unfolding set_options apply_setting for_each
  set_custom_sentinel_config ip configs auth =
      for_each configs (apply_setting (set_options ip sentinel_port auth))

  unfoldable pub apply_redis_config : Options → String × String → Op W (Unit {0})
  apply_redis_config o setting = conn.config_set o setting.0 setting.1

  unfoldable pub set_custom_redis_config : String → Dict String → String → Op W (Unit {0})
  unfolding set_options apply_redis_config for_each
  set_custom_redis_config ip configs auth =
      for_each configs (apply_redis_config (set_options ip redis_port auth))

  -- the client that the checks make for the call
  unfoldable pub get_all_redis_config : String → String → Op W (Dict String)
  unfolding set_options pairs_of
  get_all_redis_config ip auth = do
    val ← conn.config_get (set_options ip redis_port auth) "*"
    pairs_of val []

  -- redis.New
  abbrev pub redis_client : RedisClient W
  redis_client = record {
    get_number_sentinels_in_memory = get_number_sentinels_in_memory;
    get_number_sentinel_slaves_in_memory = get_number_sentinel_slaves_in_memory;
    reset_sentinel = reset_sentinel;
    get_slave_master_ip = get_slave_master_ip;
    is_master = is_master;
    monitor_redis = monitor_redis;
    make_master = make_master;
    make_slave_of = make_slave_of;
    get_sentinel_monitor = get_sentinel_monitor;
    set_custom_sentinel_config = set_custom_sentinel_config;
    set_custom_redis_config = set_custom_redis_config;
    get_all_redis_config = get_all_redis_config;
  }
