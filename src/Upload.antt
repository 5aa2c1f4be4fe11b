-- ===== src/Upload.antt =====
-- Chunked uploads of images (backend/apps/images/).
pub mod Session
pub mod Order
mod Tests
