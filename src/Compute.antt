-- ===== src/Compute.antt =====
-- components/compute/: what becomes of pods and deployments.
pub mod Deployment
pub mod Pod
pub mod Spec
