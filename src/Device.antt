-- ===== src/Device.antt =====
-- The character devices under device/.
pub mod Zero
