-- ===== src/Youtube.antt =====
-- lib/youtube-preview.ts: which videos a message previews. A text is its UTF-16 code units.
pub mod Tokens
pub mod Grammar
pub mod Previews
pub mod Failures
pub mod Bounds
pub mod Tests
