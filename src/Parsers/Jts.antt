-- ===== src/Parsers/Jts.antt =====
-- custom_components/centralite/parsers/jts.py: the reader of .jts files, over a parsed XML tree. The XML
-- parser is a parameter.
pub mod Tree
pub mod Reader
pub mod Buttons
pub mod Devices
pub mod Print
pub mod PrintButtons
pub mod RoundTrip
