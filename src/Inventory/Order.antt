-- ===== src/Inventory/Order.antt =====
-- The order of the disks of an inventory.
use kc_utils.Base.{ℕ, ◌≡◌, ◌<◌, ◌≤◌, ◌⊎◌, List, Option, none, some}
use kc_utils.Inventory.{Bus, scsi, sata, ide, nvme, DiskEntry}

-- libvirt numbers the disks of SCSI first, then those of SATA, of IDE and of NVMe, and the others last.
abbrev pub ComesBefore : Option Bus → Option Bus → Type 0
ComesBefore (some scsi) (some scsi) = ⊥
ComesBefore (some scsi) _ = Unit
ComesBefore (some sata) (some ide) = Unit
ComesBefore (some sata) (some nvme) = Unit
ComesBefore (some sata) none = Unit
ComesBefore (some ide) (some nvme) = Unit
ComesBefore (some ide) none = Unit
ComesBefore (some nvme) none = Unit
ComesBefore _ _ = ⊥

-- A disk without a unit stands before one with a unit.
abbrev pub HasLessUnit : Option ℕ → Option ℕ → Type 0
HasLessUnit none none = ⊥
HasLessUnit none (some n) = Unit
HasLessUnit (some m) none = ⊥
HasLessUnit (some m) (some n) = m < n

-- Two disks are in order: by the bus, then by the key of the controller, the unit, and the disk's own key.
abbrev pub InOrder : DiskEntry → DiskEntry → Type 0
InOrder a b =
    ComesBefore a.bus b.bus
    ⊎ ((a.bus ≡ b.bus)
        × ((a.controller_key < b.controller_key)
            ⊎ ((a.controller_key ≡ b.controller_key)
                × (HasLessUnit a.unit_number b.unit_number
                    ⊎ ((a.unit_number ≡ b.unit_number) × (a.device_key ≤ b.device_key))))))
