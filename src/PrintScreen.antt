-- ===== src/PrintScreen.antt =====
-- Drivers/Dxe/PrintScreenLogger/PrintScreenLogger.c: screen shots on a hot key, to a USB drive.
pub mod Drive
pub mod Bitmap
pub mod Capture
pub mod Driver
