-- ===== src/Production.antt =====
-- internal/videopipeline/production: the content-to-generation mainline.
pub mod RevisionState
pub mod Revision
pub mod Ledger
pub mod Refs
pub mod Prompt
pub mod Manifests
pub mod Run
pub mod Preflight
pub mod Loops
pub mod Conclude
pub mod Execute
pub mod Publication
pub mod Graph
