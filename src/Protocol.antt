-- ===== src/Protocol.antt =====
-- protocol/: the wire protocols of the two bridges. `Bitmap` is common.py, `Clock` the clock codec
-- of elegance.py.
pub mod Bitmap
pub mod Clock
pub mod Event
pub mod Session
pub mod Elegance
pub mod JetStream
mod Tests
