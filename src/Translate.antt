-- ===== src/Translate.antt =====
-- go/internal/operator/translator.go: from a workload to Kubernetes objects. Objects.antt has the
-- labels, the Service, the NetworkPolicy and the ConfigMap, Container.antt the main container,
-- Build.antt the Pod and the composition.
pub mod Objects
pub mod Container
pub mod Build
pub mod Isolation
