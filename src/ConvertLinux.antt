-- ===== src/ConvertLinux.antt =====
-- pkg/cmd/convert-linux/pipeline.go, with pkg/convert-linux/kernel/select.go and
-- pkg/convert-linux/guestcaps: the choice of the kernel, the capabilities of the guest, and the run.
--
-- `Host` has what the blocks of the conversion answer: an error text, or none. A plugin comes with its
-- name and with what its detection answers. Blocks that answer nothing are left out.
pub mod Kernels
use kc_utils.Base.{
  ℕ, Bool, true, false, not, ◌&&◌, ◌||◌, List, [], ◌∷◌, ◌++◌, Option, none, some, if◌then◌else◌,
  ltb,
}
use kc_utils.Text.{Text, codes, text_eq, is_empty, trim_space}
use kc_utils.FilePath.{slash}
use kc_utils.Sort.{text_less}
use kc_utils.Disks.{PartitionInfo, DiskInfo}
use kc_utils.Overlay.{decimal}
use kc_utils.Finalize.{BlockError}
use kc_utils.Finalize.Paths.{add_path}

pub record KernelInfo : Type 0 where
  pub version : Text
  pub path : Text
  pub initrd_path : Text
  pub modules : List Text
  pub has_virtio : Bool
  pub is_xen_pv : Bool

abbrev pub is_bootable : KernelInfo → Bool
is_bootable k = not k.is_xen_pv && not (is_empty k.path)

-- The better one of a bootable kernel and the best one before it.
unfoldable pub better : KernelInfo → Option KernelInfo → KernelInfo
unfolding text_less
better k none = k
better k (some best) =
    if k.has_virtio && not best.has_virtio
    then k
    else if text_less best.version k.version
    then k
    else best

unfoldable pub best_from : Option KernelInfo → List KernelInfo → Option KernelInfo
unfolding better
best_from best [] = best
best_from best (k ∷ ks) = best_from (if is_bootable k then some (better k best) else best) ks

-- `Best`
unfoldable pub best_kernel : List KernelInfo → Option KernelInfo
unfolding best_from
best_kernel ks = best_from none ks

pub record GuestCaps : Type 0 where
  pub block_bus : Text
  pub net_bus : Text
  pub virtio_rng : Bool
  pub virtio_balloon : Bool
  pub virtio_socket : Bool
  pub isa_pvpanic : Bool
  pub virtio_10 : Bool
  pub rtc_utc : Bool
  pub machine_type : Text
  pub arch : Text
  pub arch_min_version : ℕ

abbrev pub lacks_virtio : Option KernelInfo → Bool
lacks_virtio none = false
lacks_virtio (some k) = not k.has_virtio

abbrev pub machine_of : Text → Text
machine_of arch =
    if text_eq arch (codes "aarch64")
    then codes "virt"
    else if text_eq arch (codes "ppc64le")
    then codes "pseries"
    else if text_eq arch (codes "s390x")
    then codes "s390-ccw-virtio"
    else codes "q35"

-- `Build`
unfoldable pub build_caps : Text → Option KernelInfo → GuestCaps
unfolding text_eq
build_caps arch selected =
    let virtio = not (lacks_virtio selected) in
    record {
      block_bus = if lacks_virtio selected then codes "ide" else codes "virtio";
      net_bus = if lacks_virtio selected then codes "e1000" else codes "virtio";
      virtio_rng = virtio;
      virtio_balloon = virtio;
      virtio_socket = virtio;
      isa_pvpanic = virtio;
      virtio_10 = virtio;
      rtc_utc = true;
      machine_type = machine_of arch;
      arch = arch;
      arch_min_version = 0;
    }

pub record Plugin : Type 0 where
  pub name : Text
  pub detects : Bool
  pub error : Option Text

abbrev pub error_of : Text → Option Text → List BlockError
error_of block none = []
error_of block (some e) = record { block = block; message = e } ∷ []

-- The errors of the plugins that are run; each goes on after one that fails.
unfoldable pub run_plugins : Text → List Plugin → List BlockError
run_plugins prefix [] = []
run_plugins prefix (p ∷ ps) =
    (if p.detects then error_of (prefix ++ p.name) p.error else []) ++ run_plugins prefix ps

pub record Host : Type 0 where
  pub attach_ok : Bool
  pub rpm_kernels : Option (List KernelInfo)
  pub deb_kernels : Option (List KernelInfo)
  pub remappers : List Plugin
  pub cleanups : List Plugin
  pub free_inodes : Option ℕ
  pub esp_errors : List BlockError
  pub networkd_primary : Bool
  pub kubevirt_error : Option Text
  pub initramfs_error : Option Text
  pub static_networks_error : Option Text
  pub nic_naming_error : Option Text
  pub mac_to_ip_error : Option Text
  pub firstboot_error : Option Text
  pub relabeled : Option Bool
  pub write_ok : Bool

abbrev pub or_next : Option (List KernelInfo) → Option (List KernelInfo) → List KernelInfo
or_next (some (k ∷ ks)) next = k ∷ ks
or_next (some []) none = []
or_next (some []) (some ks) = ks
or_next none none = []
or_next none (some ks) = ks

-- `scanKernels`: a scanner that fails or finds nothing gives way to the next one.
unfoldable pub scan_kernels : Host → List KernelInfo
scan_kernels host = or_next host.rpm_kernels host.deb_kernels

abbrev pub few_inodes : Option ℕ → List BlockError → List BlockError
few_inodes none errors = errors
few_inodes (some n) errors =
    if ltb n 10
    then record {
      block = codes "uefi/pre-check";
      message = codes "EFI partition has " ++ (decimal n ++ codes " free inodes");
    }
      ∷ []
    else errors

-- `fixupUEFI`; the free inodes are those that the guest's file system tells, if it does.
unfoldable pub fixup_uefi : Bool → Host → List BlockError
unfolding decimal
fixup_uefi is_uefi host = if is_uefi then few_inodes host.free_inodes host.esp_errors else []

-- `applyKubeVirtNetworking`
unfoldable pub apply_kubevirt_networking : Host → List BlockError
apply_kubevirt_networking host =
    if host.networkd_primary then error_of (codes "networkd/kubevirt") host.kubevirt_error else []

abbrev pub after_mac : Option Text → Option Text → List BlockError
after_mac (some e) firstboot = error_of (codes "static-ip") (some e)
after_mac none firstboot = error_of (codes "static-ip/firstboot") firstboot

-- `configureStaticIPs`
unfoldable pub configure_static_ips : Host → List BlockError
configure_static_ips host =
    if host.networkd_primary
    then error_of (codes "static-ip/networkd") host.static_networks_error
    else error_of (codes "nic-naming") host.nic_naming_error
      ++ after_mac host.mac_to_ip_error host.firstboot_error

unfoldable pub mount_points_of : List PartitionInfo → List Text → List Text
unfolding trim_space text_eq add_path
mount_points_of [] mps = mps
mount_points_of (p ∷ ps) mps =
    let mp = trim_space p.mount_point in
    mount_points_of ps (if is_empty mp || text_eq mp slash then mps else add_path mp mps)

unfoldable pub mount_points_from : List DiskInfo → List Text → List Text
unfolding mount_points_of
mount_points_from [] mps = mps
mount_points_from (d ∷ ds) mps = mount_points_from ds (mount_points_of d.partitions mps)

-- `guestMountPoints`
unfoldable pub guest_mount_points : List DiskInfo → List Text
unfolding mount_points_from
guest_mount_points disks = mount_points_from disks (slash ∷ [])

pub record Input : Type 0 where
  pub arch : Text
  pub is_uefi : Bool
  pub has_static_ips : Bool

pub record ConverterOutput : Type 0 where
  pub guest_caps : GuestCaps
  pub selinux_relabeled : Bool
  pub warnings : List Text
  pub errors : List BlockError

abbrev pub or_x86 : Text → Text
or_x86 [] = codes "x86_64"
or_x86 (c ∷ s) = c ∷ s

abbrev pub is_relabeled : Option Bool → Bool
is_relabeled none = false
is_relabeled (some b) = b

-- The initramfs is rebuilt for a kernel that is selected; its failure stops the run.
abbrev pub initramfs_fails : Option KernelInfo → Option Text → Bool
initramfs_fails none error = false
initramfs_fails (some k) none = false
initramfs_fails (some k) (some e) = true

unfoldable pub block_errors : Input → Host → List BlockError
unfolding run_plugins fixup_uefi apply_kubevirt_networking configure_static_ips
block_errors input host =
    run_plugins (codes "device-remap/") host.remappers
    ++ (fixup_uefi input.is_uefi host
        ++ (run_plugins (codes "hypervisor-cleanup/") host.cleanups
            ++ (apply_kubevirt_networking host
                ++ (if input.has_static_ips then configure_static_ips host else []))))

unfoldable pub converter_output : Input → Host → ConverterOutput
unfolding build_caps block_errors best_kernel scan_kernels
converter_output input host = record {
  guest_caps = build_caps (or_x86 input.arch) (best_kernel (scan_kernels host));
  warnings = [];
  errors = block_errors input host;
  selinux_relabeled = is_relabeled host.relabeled;
}

-- `Run`: whether it succeeds, and the output that it writes.
unfoldable pub run_convert_linux : Input → Host → Bool × Option ConverterOutput
unfolding converter_output best_kernel scan_kernels
run_convert_linux input host =
    if not host.attach_ok
    then (false, none)
    else if initramfs_fails (best_kernel (scan_kernels host)) host.initramfs_error
    then (false, none)
    else if host.write_ok
    then (true, some (converter_output input host))
    else (false, none)
