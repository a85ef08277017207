-- ===== src/Standalone.antt =====
-- controllers/redisstandalone and controllers/redisstandalone_handler.go: the operations on a
-- RedisStandalone. What they share with a cluster is used from there.
pub mod Conditions
pub mod Entries
pub mod Check
