-- ===== src/Generate.antt =====
-- controllers/redissentinel/service/generator.go and controllers/redisstandalone/service/generator.go:
-- the objects that the operator wants for a resource.
pub mod Lengths
pub mod Parts
pub mod Scripts
pub mod Services
pub mod ConfigMaps
pub mod Pods
pub mod StatefulSets
pub mod Standalone
pub mod Selectors
pub mod Mounts
pub mod ShellNames
