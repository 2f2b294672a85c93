-- ===== src/RegionDiff.antt =====
-- The region-diff module's comparison by frames (modules/regiondiff/diff.go).
pub mod Run
pub mod Align
pub mod Edges
pub mod Segments
pub mod Write
pub mod Repeats
pub mod Markers
pub mod FrameDiff
pub mod Processor
pub mod Examples
mod Tests
