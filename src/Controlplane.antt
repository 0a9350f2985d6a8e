-- ===== src/Controlplane.antt =====
-- internal/videopipeline/controlplane: the guarded operations of a workspace.
pub mod Policy
