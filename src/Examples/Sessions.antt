-- ===== src/Examples/Sessions.antt =====
-- Mounts of a guestfish session, requests to the guest agent, and the disks of an inventory.
use kc_utils.Base.{ℕ, ◌≡◌, refl, true, false, List, [], ◌∷◌, ◌++◌, map, Option, none, some, arith}
use kc_utils.Text.{Text, codes}
use kc_utils.ByteStream.{Bytes}
use kc_utils.MountSpecs.{GfsMountSpec}
use kc_utils.MountSpecs.Device.{device_equal}
use kc_utils.MountSpecs.Effective.{merge_mount_specs, Session, Backend, effective_mount_specs}
use kc_utils.MountSpecs.Merged.{device_at, over, device_at-merge_mount_specs}
use kc_utils.MountSpecs.Again.{effective_mount_specs-again}
use kc_utils.Wire.{Writer, serve, closed}
use kc_utils.Wire.RoundTrip.{frames, serve-answers}
use kc_utils.Inventory.{scsi, ide, flat, VirtualDisk, Device, controller, disk, disks_from_devices}

abbrev mount_of : Text → Text → GfsMountSpec
mount_of dev mp = record { device = dev; guest_mount = mp }

device_at-merge_mount_specs_example :
    device_at (codes "/boot") (
      merge_mount_specs
        (mount_of (codes "/dev/vg/root") (codes "/") ∷ [])
        (mount_of (codes "/dev/sda1") (codes "/boot") ∷ []))
    ≡ over
        (device_at (codes "/boot") (mount_of (codes "/dev/vg/root") (codes "/") ∷ []))
        (device_at (codes "/boot") (mount_of (codes "/dev/sda1") (codes "/boot") ∷ []))
device_at-merge_mount_specs_example =
    device_at-merge_mount_specs (codes "/boot") (mount_of (codes "/dev/vg/root") (codes "/") ∷ [])
      (mount_of (codes "/dev/sda1") (codes "/boot") ∷ [])

mapper_name : device_equal (codes "/dev/vg-a/root") (codes "/dev/mapper/vg--a-root") ≡ true
unfolding device_equal
mapper_name = refl

-- Two devices without a name compare alike, since `path.Clean` makes a dot of each.
no_names : device_equal [] [] ≡ true
unfolding device_equal
no_names = refl

abbrev linux_session : Session
linux_session = record {
  inspect_os = some (codes "/dev/mapper/vg-root" ++ 10 ∷ []);
  inspect_mountpoints =
      λ root. some (codes "/: /dev/vg/root" ++ (10 ∷ codes "/boot: /dev/sda1" ++ 10 ∷ []));
}

abbrev fresh_backend : Backend
fresh_backend = record {
  session = some linux_session;
  disk_infos = [];
  mount_specs = mount_of (codes "/dev/vg/root") (codes "/") ∷ [];
  inspect_done = false;
}

abbrev both_mounts : List GfsMountSpec
both_mounts =
    mount_of (codes "/dev/vg/root") (codes "/") ∷ mount_of (codes "/dev/sda1") (codes "/boot") ∷ []

abbrev inspected_backend : Backend
inspected_backend = record fresh_backend { mount_specs = both_mounts; inspect_done = true }

inspected_once : effective_mount_specs fresh_backend ≡ (some both_mounts, inspected_backend)
unfolding effective_mount_specs
inspected_once = refl

effective_mount_specs-again_example :
    effective_mount_specs inspected_backend ≡ (some both_mounts, inspected_backend)
effective_mount_specs-again_example =
    effective_mount_specs-again fresh_backend inspected_backend both_mounts inspected_once

-- A message of one byte.
abbrev one_byte : ℕ → Bytes
one_byte n = n ∷ []

abbrev byte_of : Bytes → Option ℕ
byte_of (n ∷ []) = some n
byte_of _ = none

abbrev open_writer : Writer
open_writer = record { accepts = λ out bs. true; left_by_failure = λ out bs. out }

serve-answers_example :
    serve byte_of
      (λ n. some (one_byte n))
      open_writer
      (λ n. n)
      (record { rest = frames (map one_byte (7 ∷ 9 ∷ [])); broken = false })
    ≡ (closed, frames (map one_byte (map (λ n. n) (7 ∷ 9 ∷ []))))
serve-answers_example =
    serve-answers byte_of (λ n. some (one_byte n)) open_writer (λ n. n) one_byte one_byte
      (7 ∷ 9 ∷ []) (λ r. refl) (λ b. refl) (λ o b. refl)
      ((omega arith, omega arith), ((omega arith, omega arith), tt))

abbrev vmdk_at : ℕ → ℕ → Text → VirtualDisk
vmdk_at key ctl file = record {
  key = key;
  controller_key = ctl;
  unit_number = some 0;
  backing = flat file [];
}

abbrev two_disks : List Device
two_disks =
    disk (vmdk_at 2001 200 (codes "[ds] vm/cd.vmdk"))
    ∷ disk (vmdk_at 2000 1000 (codes "[ds] vm/a-000001.vmdk"))
    ∷ controller ide 200
    ∷ controller scsi 1000
    ∷ []

scsi_first : disks_from_devices two_disks ≡ codes "[ds] vm/a.vmdk" ∷ codes "[ds] vm/cd.vmdk" ∷ []
unfolding disks_from_devices
scsi_first = refl
