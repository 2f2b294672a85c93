-- ===== src/Mp3.antt =====
-- The MP3 frame reader (mp3/mp3.go).
pub mod Header
pub mod Frame
pub mod Tags
pub mod Parse
pub mod Silent
mod Tests
