-- ===== src/K8s.antt =====
-- The Kubernetes backend: finding the pod (k8s/resolve.go), and the cached connection to it
-- (k8s/portforward.go), the streams over it (k8s/stream.go), and the registration of the backend type
-- (k8s/register.go).
pub mod Cluster
pub mod Resolve
pub mod Forward
pub mod Stream
pub mod Register
