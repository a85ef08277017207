-- ===== src/Generate/Scripts.antt =====
-- The texts of the configuration files and scripts that the config maps hold.
use Prim.Native.Char.{Char, code}
use Prim.Native.String.{char_at}
use cndb_redis.Base.{String, ◌<>◌, ◌-◌, List, [], ◌∷◌, leb, ◌&&◌, if◌then◌else◌, str_eq}
use cndb_redis.Base.Dict.{Dict}

-- the lines of a literal
abbrev pub join_lines : List String → String
join_lines [] = ""
join_lines (line ∷ []) = line
join_lines (line ∷ next ∷ lines) = line <> ("\n" <> join_lines (next ∷ lines))

-- strings.ToUpper of the letters that a name may have
unfoldable pub upper_char : Char → Char
upper_char c =
    if leb b'a' (code c) && leb (code c) b'z'
    then char_at "ABCDEFGHIJKLMNOPQRSTUVWXYZ" (code c - b'a')
    else c

unfoldable pub to_upper : String → String
unfolding upper_char
to_upper String.[] = ""
to_upper (String.◌∷◌ c s) = String.◌∷◌ (upper_char c) (to_upper s)

abbrev pub sentinel_config : String
sentinel_config = join_lines (
    "sentinel monitor mymaster 127.0.0.1 6379 2" ∷ "sentinel down-after-milliseconds mymaster 1000"
    ∷ "sentinel failover-timeout mymaster 3000" ∷ "sentinel parallel-syncs mymaster 2" ∷ [])

abbrev pub redis_config : String
redis_config =
    join_lines ("slaveof 127.0.0.1 6379" ∷ "tcp-keepalive 60" ∷ "save 900 1" ∷ "save 300 10" ∷ [])

abbrev pub redis_basic_config : String
redis_basic_config = join_lines (
    "bind 0.0.0.0" ∷ "protected-mode yes" ∷ "tcp-backlog 511" ∷ "timeout 0" ∷ "tcp-keepalive 300"
    ∷ "daemonize no" ∷ "supervised no" ∷ "pidfile /var/run/redis.pid" ∷ [])

abbrev pub readiness_script : String
readiness_script = join_lines (
    "#!/usr/bin/env sh" ∷ "set -eou pipefail" ∷ "redis-cli -h $(hostname) -p 26379 ping"
    ∷ "slaves=$(redis-cli -h $(hostname) -p 26379 info sentinel|grep master0| grep -Eo 'slaves=[0-9]+' | awk -F= '{print $2}')"
    ∷ "status=$(redis-cli -h $(hostname) -p 26379 info sentinel|grep master0| grep -Eo 'status=\\w+' | awk -F= '{print $2}')"
    ∷ "if [ \"$status\" != \"ok\" ]; then " ∷ "    exit 1" ∷ "fi" ∷ "if [ $slaves -le 1 ]; then"
    ∷ "\texit 1" ∷ "fi" ∷ "" ∷ [])

abbrev pub standalone_shutdown_script : String
standalone_shutdown_script = join_lines ("#!/usr/bin/env sh" ∷ "\techo \"do nothing\"" ∷ [])

unfoldable pub shutdown_script : String → String → String
shutdown_script host port = join_lines (
    "#!/usr/bin/env sh"
    ∷ "master=\"\""
    ∷ "response_code=\"\""
    ∷ "while [ \"$master\" = \"\" ]; do"
    ∷ "\techo \"Asking sentinel who is master...\""
    ∷ ("\tmaster=$(redis-cli -h ${"
        <> (host
            <> "} -p ${"
            <> (port
                <> "} --csv SENTINEL get-master-addr-by-name mymaster | tr ',' ' ' | tr -d '\\\"' |cut -d' ' -f1)")))
    ∷ "\tsleep 1"
    ∷ "done"
    ∷ "echo \"Master is $master, doing redis save...\""
    ∷ "redis-cli SAVE"
    ∷ "if [ $master = $(hostname -i) ]; then"
    ∷ "\twhile [ ! \"$response_code\" = \"OK\" ]; do"
    ∷ ("  \t\tresponse_code=$(redis-cli -h ${"
        <> (host <> "} -p ${" <> (port <> "} SENTINEL failover mymaster)")))
    ∷ "\t\techo \"after failover with code $response_code\""
    ∷ "\t\tsleep 1"
    ∷ "\tdone"
    ∷ "fi"
    ∷ [])

-- if the password is set, sentinel auth-pass is appended
unfoldable pub with_auth_pass : String → String → String
with_auth_pass content password =
    if str_eq password ""
    then content
    else content <> ("\nsentinel auth-pass mymaster " <> (password <> "\n"))

-- if the password is set, requirepass and masterauth are appended
unfoldable pub with_require_pass : String → String → String
with_require_pass content password =
    if str_eq password ""
    then content
    else content <> ("\nrequirepass " <> (password <> ("\nmasterauth " <> (password <> "\n"))))

-- for k, v := range rc.Spec.Config
unfoldable pub with_settings : String → Dict String → String
with_settings content [] = content
with_settings content ((key, value) ∷ config) =
    with_settings (content <> ("\n" <> (key <> (" " <> value)))) config
