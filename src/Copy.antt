-- ===== src/Copy.antt =====
-- pkg/copy without the VMDK reader: the choice of the disks of an NFC lease and of their targets, the
-- checks of `Run`, and the workers that copy the disks side by side.
pub mod Select
pub mod Plan
pub mod Pool
