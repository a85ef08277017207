-- ===== src/Redis.antt =====
-- pkg/client/redis/client.go: the calls of a redis node or a sentinel.
pub mod Match
pub mod Params
pub mod Commands
pub mod Roles
pub mod Replicas
