-- ===== src/Inventory/Listed.antt =====
-- The entries of the disks of an inventory.
use kc_utils.Text.{Text, is_empty}
use kc_utils.Base.{
  ℕ, ◌≡◌, ◌≢◌, ◌⊎◌, inl, inr, refl, ap, true, false, List, [], ◌∷◌, ◌++◌, arith, Option, none, some,
  All, Bool-cases, ◌==◌, ==_iff, if◌then◌else◌, if-holds,
}
use kc_utils.Inventory.{
  Bus, VirtualDisk, Device, controller, disk, other_device, DiskEntry, disk_file_path,
  controller_bus, entry_of, or_bus, entries_from,
}

abbrev pub IsController : ℕ → Device → Type 0
IsController key (controller c k) = k ≡ key
IsController key (disk d) = ⊥
IsController key (other_device k) = ⊥

-- The bus that belongs to a controller's key: of the last controller that has it, or none without one.
abbrev pub IsBusOf : ℕ → List Device → Option Bus → Type 0
IsBusOf key ds none = All (λ d. ¬ IsController key d) ds
IsBusOf key ds (some c) =
    (before : List Device) × (after : List Device) × (ds ≡ before ++ controller c key ∷ after)
    × All (λ d. ¬ IsController key d) after

-- The entry has the disk's file, keys and unit, and the bus of its controller, if it names one.
pub record IsEntry (all : List Device) (d : VirtualDisk) (e : DiskEntry) : Type 0 where
  pub path : e.path ≡ disk_file_path d.backing
  pub controller_key : e.controller_key ≡ d.controller_key
  pub unit_number : e.unit_number ≡ d.unit_number
  pub device_key : e.device_key ≡ d.key
  pub no_controller : d.controller_key ≡ 0 → e.bus ≡ none
  pub bus : d.controller_key ≢ 0 → IsBusOf d.controller_key all e.bus

-- An entry for each disk that has a file, in the order of the devices, and no other.
unfoldable pub ListsDisks : List Device → List Device → List DiskEntry → Type 0
ListsDisks all [] es = es ≡ []
ListsDisks all (controller b k ∷ ds) es = ListsDisks all ds es
ListsDisks all (other_device k ∷ ds) es = ListsDisks all ds es
ListsDisks all (disk d ∷ ds) es =
    ((disk_file_path d.backing ≡ []) × ListsDisks all ds es)
    ⊎ ((e : DiskEntry) × (rest : List DiskEntry) × (es ≡ e ∷ rest)
        × IsEntry all d e
        × (e.path ≢ [])
        × ListsDisks all ds rest)

IsBusOf-skip :
    (key : ℕ) (d : Device) (ds : List Device) (o : Option Bus)
    → ¬ IsController key d
    → IsBusOf key ds o
    → IsBusOf key (d ∷ ds) o
IsBusOf-skip key d ds none n h = (n, h)
IsBusOf-skip key d ds (some c) n (before, after, e, h) = (d ∷ before, after, ap (λ l. d ∷ l) e, h)

IsBusOf-controller :
    (key : ℕ) (b : Bus) (k : ℕ) (ds : List Device) (o : Option Bus)
    → IsBusOf key ds o
    → IsBusOf key (controller b k ∷ ds) (or_bus o (if k == key then some b else none))
IsBusOf-controller key b k ds (some c) (before, after, e, h) =
    (controller b k ∷ before, after, ap (λ l. controller b k ∷ l) e, h)
IsBusOf-controller key b k ds none h = elim (Bool-cases (k == key)) [
  | inl e ↦ rw e ([], ds, ap (λ n. controller b n ∷ ds) ((==_iff k key).0 e), h)
  | inr e ↦ rw e (λ q. ground (arith, e, q), h)
]

controller_bus-IsBusOf : (key : ℕ) (ds : List Device) → IsBusOf key ds (controller_bus key ds)
unfolding controller_bus
controller_bus-IsBusOf key [] = tt
controller_bus-IsBusOf key (controller b k ∷ ds) =
    IsBusOf-controller key b k ds (controller_bus key ds) (controller_bus-IsBusOf key ds)
controller_bus-IsBusOf key (disk d ∷ ds) =
    IsBusOf-skip key (disk d) ds (controller_bus key ds) (λ q. q) (controller_bus-IsBusOf key ds)
controller_bus-IsBusOf key (other_device k ∷ ds) =
    IsBusOf-skip key (other_device k) ds (controller_bus key ds) (λ q. q)
      (controller_bus-IsBusOf key ds)

entry_of-IsEntry : (all : List Device) (d : VirtualDisk) → IsEntry all d (entry_of all d)
unfolding entry_of
entry_of-IsEntry all d = record {
  path = refl;
  controller_key = refl;
  unit_number = refl;
  device_key = refl;
  no_controller = λ e. rw e refl;
  bus = λ n.
      if-holds (IsBusOf d.controller_key all) (d.controller_key == 0) _ _
        (λ e. absurd (n ((==_iff d.controller_key 0).0 e)))
        (λ e. controller_bus-IsBusOf d.controller_key all);
}

is_empty-nil : (t : Text) → is_empty t ≡ true → t ≡ []
is_empty-nil [] e = refl
is_empty-nil (c ∷ t) e = absurd cc

is_empty-filled : (t : Text) → is_empty t ≡ false → t ≢ []
is_empty-filled [] e = λ q. cc
is_empty-filled (c ∷ t) e = λ q. cc

pub entries_from-ListsDisks : (all ds : List Device) → ListsDisks all ds (entries_from all ds)
unfolding entries_from ListsDisks
entries_from-ListsDisks all [] = refl
entries_from-ListsDisks all (controller b k ∷ ds) = entries_from-ListsDisks all ds
entries_from-ListsDisks all (other_device k ∷ ds) = entries_from-ListsDisks all ds
entries_from-ListsDisks all (disk d ∷ ds) =
    elim (Bool-cases (is_empty (disk_file_path d.backing))) [
      | inl e ↦
          rw e (inl (is_empty-nil (disk_file_path d.backing) e, entries_from-ListsDisks all ds))
      | inr e ↦ rw e (
          inr (
            entry_of all d,
            entries_from all ds,
            refl,
            entry_of-IsEntry all d,
            is_empty-filled (disk_file_path d.backing) e,
            entries_from-ListsDisks all ds,
          ))
    ]
