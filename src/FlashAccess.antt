-- ===== src/FlashAccess.antt =====
-- Library/PlatformFlashAccessLib/PlatformFlashAccessLib.c: block-wise update of the SPI flash.
pub mod Device
pub mod Spi
pub mod Update
pub mod Progress
pub mod Frame
pub mod Block
pub mod Rounds
pub mod Verified
