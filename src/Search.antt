-- ===== src/Search.antt =====
-- search/: retrieval over both indexes.
pub mod Retriever
pub mod Retrieval
pub mod Reranker
pub mod QueryProcessor
pub mod NeuralFilter
