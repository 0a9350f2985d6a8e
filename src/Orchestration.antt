-- ===== src/Orchestration.antt =====
-- internal/videopipeline/orchestration: the Temporal workflows.
pub mod Controls
