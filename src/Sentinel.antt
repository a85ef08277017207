-- ===== src/Sentinel.antt =====
-- controllers/redissentinel/service and the handler: checking and healing a redis sentinel cluster.
pub mod Check
pub mod Heal
pub mod Handler
