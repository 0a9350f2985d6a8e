-- ===== src/Postproduction.antt =====
-- internal/videopipeline/postproduction: what happens to an episode after its shots.
pub mod Subtitle
