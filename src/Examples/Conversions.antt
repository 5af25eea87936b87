-- ===== src/Examples/Conversions.antt =====
-- A run of kc-convert-linux on a guest with two kernels.
use kc_utils.Base.{◌≡◌, refl, true, false, [], ◌∷◌, none, some}
use kc_utils.Text.{codes}
use kc_utils.Sort.{text_less}
use kc_utils.ConvertLinux.{
  KernelInfo, best_kernel, scan_kernels, Input, Host, guest_mount_points, run_convert_linux,
}
use kc_utils.ConvertLinux.Kernels.{IsConverted, run_convert_linux-IsConverted}

abbrev with_virtio : KernelInfo
with_virtio = record {
  version = codes "5.10";
  path = codes "/boot/vmlinuz-5.10";
  initrd_path = [];
  modules = codes "virtio_blk" ∷ [];
  has_virtio = true;
  is_xen_pv = false;
}

abbrev without_virtio : KernelInfo
without_virtio = record {
  version = codes "5.9";
  path = codes "/boot/vmlinuz-5.9";
  initrd_path = [];
  modules = [];
  has_virtio = false;
  is_xen_pv = false;
}

abbrev linux_input : Input
linux_input = record { arch = []; is_uefi = true; has_static_ips = false }

abbrev linux_host : Host
linux_host = record {
  attach_ok = true;
  rpm_kernels = none;
  deb_kernels = some (with_virtio ∷ without_virtio ∷ []);
  remappers = record { name = codes "standard"; detects = true; error = some (codes "EIO") } ∷ [];
  cleanups = [];
  free_inodes = some 3;
  esp_errors = [];
  networkd_primary = false;
  kubevirt_error = none;
  initramfs_error = none;
  static_networks_error = none;
  nic_naming_error = none;
  mac_to_ip_error = none;
  firstboot_error = none;
  relabeled = some true;
  write_ok = true;
}

-- The texts of the versions are compared.
chosen : best_kernel (with_virtio ∷ without_virtio ∷ []) ≡ some without_virtio
unfolding best_kernel text_less
chosen = refl

chosen_first : best_kernel (without_virtio ∷ with_virtio ∷ []) ≡ some with_virtio
unfolding best_kernel text_less
chosen_first = refl

mount_points_none : guest_mount_points [] ≡ codes "/" ∷ []
unfolding guest_mount_points
mount_points_none = refl

run_convert_linux-IsConverted_example :
    ((run_convert_linux linux_input linux_host).0 ≡ true)
    × IsConverted (with_virtio ∷ without_virtio ∷ []) (run_convert_linux linux_input linux_host)
unfolding best_kernel scan_kernels text_less
run_convert_linux-IsConverted_example = run_convert_linux-IsConverted linux_input linux_host
