-- ===== src/Media.antt =====
-- lib/matrix/media.ts: the gate of media operations, uploads, and the headers of images.
pub mod Gate
pub mod Files
pub mod Image
