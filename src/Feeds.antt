-- ===== src/Feeds.antt =====
-- Feeds (feeds): the rules that hide and tag episodes.
pub mod Rules
pub mod Publish
mod Tests
