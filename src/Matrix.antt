-- ===== src/Matrix.antt =====
-- The files of lib/matrix that stand alone.
pub mod UrlPolicy
pub mod MessageText
pub mod SessionWarning
pub mod Drafts
pub mod Tests
