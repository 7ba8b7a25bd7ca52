-- ===== src/Wc.antt =====
-- wc/: the working copy, of which the work queue of its administrative database.
pub mod Queue
