-- ===== src/Lib.antt =====
-- Models of kc-utils, a set of programs that convert virtual machines to KVM: kc-copy brings the disks
-- over, kc-prepare finds the guest's root and mounts it, kc-convert-linux and kc-convert-windows
-- change the guest, and kc-finalize writes the target's metadata. The models follow the Go code,
-- function by function, under its names in snake case.
--
-- - Vmdk (pkg/copy/vmdk.go): the reader of stream-optimized VMDK images. `Vmdk.Decoder` has the state
--   and the errors, `Vmdk.Grain` the grains and markers, `Vmdk.Image` the header and the loop, with
--   `stream_to_raw` for StreamToRaw. `Vmdk.Encode` describes the format by itself. The loop runs on
--   one unit of fuel per byte of the stream and one more, which is enough since a round that goes
--   on reads a byte at least.
-- - Overlay (pkg/prepare/guest/overlay): the qcow2 overlays of an in-place conversion, over a store of
--   disks that pointers share.
-- - ConfigEdit (pkg/common/configedit): the editors of fstab, GRUB, Boot Loader Specification and
--   modprobe files.
-- - Remap (pkg/convert-linux/remap/plugins/standard): the renaming of block devices, by those editors,
--   over a tree of files.
-- - Disks (pkg/guest/mount_table.go with pkg/common/types/types.go): the disks and partitions that the
--   stages hand on, and the mount of the root among them.
-- - Mount (pkg/prepare/mount, pkg/prepare/guest/resolve): which filesystems are mounted where. It takes
--   the entries that `ConfigEdit.Fstab` parses and records the mounts in `Disks`.
-- - Root (pkg/prepare/root): the candidates for the root, found on `Disks`, and the choice of one.
-- - Copy (pkg/copy): the disks of the lease (`Copy.Select`), the checks of `Run` with the targets and the
--   lease (`Copy.Plan`), and its workers as a step relation over all interleavings (`Copy.Pool`).
-- - V2v (pkg/cmd/v2v/pipeline.go): the stages, the listener that they share, and the clean-up, as events;
--   `V2v.Images` runs them over the overlays of `Overlay`.
-- - Finalize (pkg/cmd/finalize, pkg/finalize): the calls of kc-finalize on the guest, and the metadata.
-- - Prepare (pkg/cmd/prepare, pkg/prepare/firmware, pkg/common/types/diskdir.go): the run of kc-prepare on
--   `Root` and `Mount`, the volumes that it unlocks, and the disks that it is given.
-- - ConvertLinux (pkg/cmd/convert-linux, pkg/convert-linux/kernel/select.go,
--   pkg/convert-linux/guestcaps): the errors and the output of kc-convert-linux, on what its blocks answer.
-- - MountSpecs (pkg/backend/plugins/guestfs/mount_specs.go): the mounts of a guestfish session.
-- - WindowsVol (pkg/backend/windowsvol/detect.go): the volumes of a Windows guest that stop a backend.
-- - Wire (pkg/qemuagent): the frames of the guest agent, and its loop. The fuel is one unit per byte and
--   one more, and a round reads four bytes at least.
-- - Inventory (pkg/v2v/vsphere/disks.go): the disks of a virtual machine in their order.
-- - Windows (pkg/convert-windows/version, pkg/convert-windows/driversource): the classification of a
--   Windows guest, and the virtio-win directory of its drivers.
-- - Text, FilePath, Sort, ByteStream: the functions of Go's standard library that the code calls.
-- - Base: the names that all modules share. Examples: concrete runs.
--
-- Strings are lists of bytes; letters and white space are those of ASCII. Integers are natural numbers
-- with the code's bounds and wrap-around written out. A sort is an insertion sort, which keeps the
-- order of items that compare alike; Go's sort.Slice keeps it up to twelve items. Programs and
-- devices outside (qemu-img, zlib, blkid, the guest's file system, the probes) are arguments.
-- Not modelled: logging, the backends that run guestfish or QEMU but for the mounts of a session, the
-- network, registry hives, script templates, and the run of kc-convert-windows.
pub mod Base
pub mod Text
pub mod FilePath
pub mod Sort
pub mod ByteStream
pub mod Vmdk
pub mod Windows
pub mod Overlay
pub mod ConfigEdit
pub mod Remap
pub mod Disks
pub mod Mount
pub mod Root
pub mod Examples
pub mod Copy
pub mod Finalize
pub mod V2v
pub mod Wire
pub mod MountSpecs
pub mod Inventory
pub mod Prepare
pub mod ConvertLinux
pub mod WindowsVol
