-- ===== src/Kube.antt =====
-- pkg/client/k8s: the objects of Kubernetes, and the services over them.
pub mod Creates
pub mod Objects
pub mod Crud
pub mod Server
pub mod Kinds
pub mod Events
