-- ===== src/Utils.antt =====
-- utils/: what the indexing pipeline uses.
pub mod QualityScorer
pub mod Dedup
pub mod TextCleaner
