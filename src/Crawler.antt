-- ===== src/Crawler.antt =====
-- crawler/: what the crawl records.
pub mod LinkGraph
pub mod Crawl
pub mod Fetch
pub mod Extractor
pub mod Robots
