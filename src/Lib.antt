-- ===== src/Lib.antt =====
-- Verification of the redis operator: the resources RedisSentinel and RedisStandalone, how they are
-- validated, what the operator remembers of them, and how it checks and heals the redis behind them.
--
-- A visit of the operator reconciles one resource. `Validate` writes the defaults into the resource;
-- the cache compares it with the object seen before and keeps the password; the handler then checks
-- the pods, chooses a master where there is none, and points every redis and sentinel at it. The
-- conditions in the status say what happened.
--
-- Files and what they model:
--   Base        tests, lists, signed integers with wrap-around, association lists
--   Api         api/v1alpha1: Api/Status is redissentinel_status.go, Api/Types the two resources,
--               Api/Views what they share, Api/Persistence util.go, Api/Defaults constants.go and
--               the defaults, Api/ValidateSentinel and Api/ValidateStandalone the two Validate
--   Strconv     what ParseRedisMemConf uses of the package strconv
--   Util        pkg/util: Util/Memory is ParseRedisMemConf, Util/Names the names of resources,
--               Util/Labels label.go and ShouldManage, Util/Settings the rest of utils.go
--   Cache       controllers/redissentinel/cache/cahce.go, over a store of objects and pointers
--   Ops         calls that may fail and that change the world outside
--   Client      the interfaces to Kubernetes, to redis and to the clock, as the controllers use them
--   Redis       pkg/client/redis/client.go: Redis/Match its patterns, Redis/Params addresses and the
--               settings of a sentinel, Redis/Commands the commands, Redis/Roles what they do to the
--               roles of the nodes, Redis/Replicas the number of replicas
--   Kube        pkg/client/k8s: Kube/Objects the objects, Kube/Crud the services over any kind of
--               object, Kube/Kinds their names for each kind, Kube/Events event.go, Kube/Server and
--               Kube/Creates what the services do to the objects of an API server
--   Generate    generator.go of controllers/redissentinel/service and redisstandalone/service, and
--               controllers/common/k8s_field_default.go; Generate/Lengths holds the names of the
--               services against the limit of Validate
--   Ensure      client.go of the same two packages; Ensure/Sets and Ensure/OneSet follow one stateful
--               set on a server that answers, Ensure/Stores the objects of all kinds; Ensure/Calls,
--               Ensure/Clusters and Ensure/Whole are the nine calls of Ensure of a cluster and
--               Ensure/Single the six of a standalone redis; Ensure/Numbers and
--               Ensure/ClusterNumbers let the checks read the stateful sets through the same
--               client, as New of pkg/client/k8s/k8s.go puts it together, and Ensure/Healing lets
--               CheckAndHeal follow Ensure
--   Sentinel    controllers/redissentinel/service: Sentinel/Check is check.go, Sentinel/Heal heal.go;
--               Sentinel/Handler is CheckAndHeal of controllers/redissentinel_handler.go
--   Standalone  controllers/redisstandalone, its cache and status, and CheckAndHeal of
--               controllers/redisstandalone_handler.go
--   Reconcile   Do and updateStatus over one store and cache, Reconcile/Handlers the two handlers;
--               Reconcile/Controller is Reconcile and the filter of events of
--               controllers/redissentinel_controller.go and redisstandalone_controller.go;
--               Reconcile/Clusters joins Do and CheckAndHeal of a cluster,
--               Reconcile/Keyed follows the cache through any sequence of visits, and
--               Reconcile/Unlocked the password of an entry through an update of the status
--   Metrics     pkg/metrics/metrics.go and the event that deletes a gauge
--   Samples     concrete resources and runs
--
-- An operation on the world takes a state of any type and returns a result or an error with the
-- state that it leaves. Kubernetes, redis and the clock are records of such operations; what a
-- theorem needs of them stands among its hypotheses. Maps are association lists: an iteration over a
-- map visits the keys in the list's order, and a theorem for all lists covers every order.
-- Times are natural numbers, in seconds where the code computes with them. int32 and int64 results
-- wrap around. The wait for a restored sentinel runs on fuel: seven turns, since each failed turn
-- sleeps five of the thirty seconds.
--
-- The types of k8s.io that the operator only passes on are parameters, and so are go-redis and the
-- client of controller-runtime. A stateful set, a service or a config map has the fields that the
-- operator sets. The owners of an object are an argument.
--
-- Visits follow one another. The operator runs up to MaxConcurrentReconciles of them at once, four by
-- default, of different resources; calls of two visits that overlap are not modelled, nor is what
-- they do to the cache, which they share.
--
-- strings.ToUpper is written for the letters of ASCII, the only ones in a Kubernetes name.
--
-- Not modelled: the owner references (they need the UID of the resource), the deep copies that are
-- generated, logging, the registration of the metrics and the start of the process.
pub mod Base
pub mod Api
pub mod Strconv
pub mod Util
pub mod Cache
pub mod Ops
pub mod Client
pub mod Sentinel
pub mod Standalone
pub mod Reconcile
pub mod Metrics
pub mod Redis
pub mod Kube
pub mod Generate
pub mod Ensure
pub mod Samples
