-- ===== src/Windows.antt =====
-- pkg/convert-windows: which version of Windows a guest is, and the driver directory for it.
pub mod Version
pub mod Classify
pub mod DriverDir
