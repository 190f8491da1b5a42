-- ===== src/Ingestion.antt =====
-- Ingestion, src/sombreado/ingestion.
pub mod Scrape
pub mod Domain
pub mod Directions
pub mod Segments
pub mod Canonical
pub mod Catalogue
pub mod Http
mod Tests
