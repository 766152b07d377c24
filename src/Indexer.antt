-- ===== src/Indexer.antt =====
-- indexer/: the sparse index, the dense store, and the loop that their searches share.
pub mod Collect
pub mod Bm25
pub mod VectorStore
pub mod Embedder
pub mod Batching
pub mod Pipeline
pub mod Samples
