-- ===== src/Parsers.antt =====
-- custom_components/centralite/parsers/: the readers of configuration files and of typed ids.
pub mod Elg
pub mod Csv
pub mod Jts
mod Tests
