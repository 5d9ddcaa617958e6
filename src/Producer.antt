-- ===== src/Producer.antt =====
-- producer/producer.py: the Upbit trade producer.
pub mod Writer
pub mod GapFill
pub mod Fill
pub mod Session
mod Tests
mod SessionTests
