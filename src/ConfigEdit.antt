-- ===== src/ConfigEdit.antt =====
-- pkg/common/configedit: the editors of a guest's configuration files.
pub mod Fstab
pub mod Grub
pub mod Bls
pub mod Modprobe
