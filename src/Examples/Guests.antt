-- ===== src/Examples/Guests.antt =====
-- The configuration files of a guest and the renaming of its devices.
use kc_utils.Base.{
  ◌≡◌, ◌≢◌, ◌⊎◌, refl, inl, inr, true, false, List, [], ◌∷◌, ◌++◌, map, arith, All, if◌then◌else◌,
}
use kc_utils.Text.{
  Text, codes, text_eq, has_suffix, is_space, trim_space, trim_left, trim_right, has_prefix,
}
use kc_utils.Text.Words.{IsWord}
use kc_utils.FilePath.{join_path}
use kc_utils.FilePath.Laws.{IsRooted, join_path-IsRooted, IsRooted-ne}
use kc_utils.Text.Laws.{text_eq_iff}
use kc_utils.ConfigEdit.Fstab
use kc_utils.ConfigEdit.Fstab.{Entry, comment_entry, fields_entry}
use kc_utils.ConfigEdit.Fstab.RoundTrip.{IsFull, IsComment, parse-to_string}
use kc_utils.ConfigEdit.Grub.{Config, cmdline, get_kernel_args, add_kernel_arg, remove_kernel_arg}
use kc_utils.ConfigEdit.Grub.KernelArgs.ArgNames.{AnyArg, IsSetBefore, IsRemoval}
use kc_utils.ConfigEdit.Grub.KernelArgs.{get_kernel_args-add, get_kernel_args-remove}
use kc_utils.ConfigEdit.Bls.{Field}
use kc_utils.Remap.{
  Tree, Guest, contents, listed, entries_dir, standard_prefixes, remap, remap_devices,
  remap_kernel_args,
}
use kc_utils.Remap.Prefixes.{remap_once, remap_devices-first}
use kc_utils.Remap.KernelArgs.{remap_kernel_args-again}
use kc_utils.Remap.Frame.{remap-keeps}

abbrev root_entry : Entry
root_entry =
    fields_entry
      (codes "/dev/sda1" ∷ codes "/" ∷ codes "ext4" ∷ codes "defaults" ∷ codes "0" ∷ codes "1" ∷ [])

abbrev remark : Entry
remark = comment_entry (codes "# disks")

root_entry-IsFull : IsFull root_entry
unfolding is_space has_prefix
root_entry-IsFull = record {
  device = ((refl, (refl, (refl, (refl, (refl, (refl, (refl, (refl, (refl, tt))))))))), λ e. cc);
  mount_point = ((refl, tt), λ e. cc);
  fs_type = ((refl, (refl, (refl, (refl, tt)))), λ e. cc);
  options = ((refl, (refl, (refl, (refl, (refl, (refl, (refl, (refl, tt)))))))), λ e. cc);
  dump = ((refl, tt), λ e. cc);
  pass = ((refl, tt), λ e. cc);
  no_hash = refl;
  no_comment = refl;
}

remark-IsComment : IsComment remark
unfolding trim_space trim_left trim_right is_space has_prefix
remark-IsComment = record {
  shape = refl;
  hash = refl;
  one_line = (refl, (refl, (refl, (refl, (refl, (refl, (refl, tt)))))));
}

parse-to_string_example :
    Fstab.parse (Fstab.to_string (remark ∷ root_entry ∷ []))
    ≡ (remark ∷ root_entry ∷ []) ++ comment_entry [] ∷ []
parse-to_string_example =
    parse-to_string remark (root_entry ∷ []) (inr remark-IsComment, (inl root_entry-IsFull, tt))

abbrev config : Config
config = record { lines = []; kv = (cmdline, codes "quiet root=/dev/sda1") ∷ [] }

splash-IsWord : IsWord (codes "splash")
unfolding is_space
splash-IsWord = ((refl, (refl, (refl, (refl, (refl, (refl, tt)))))), λ e. cc)

get_kernel_args-add_example :
    (AnyArg (IsSetBefore (codes "splash") (codes "splash")) (get_kernel_args config)
      × (get_kernel_args (add_kernel_arg config (codes "splash")) ≡ get_kernel_args config))
    ⊎ (All (λ a. ¬ IsSetBefore (codes "splash") (codes "splash") a) (get_kernel_args config)
        × (get_kernel_args (add_kernel_arg config (codes "splash"))
            ≡ get_kernel_args config ++ codes "splash" ∷ []))
get_kernel_args-add_example =
    get_kernel_args-add config (codes "splash") (codes "splash") splash-IsWord
      (refl, (refl, (refl, (refl, (refl, (refl, tt)))))) (inl refl)

get_kernel_args-remove_example :
    IsRemoval
      (codes "root")
      (get_kernel_args config)
      (get_kernel_args (remove_kernel_arg config (codes "root")))
get_kernel_args-remove_example = get_kernel_args-remove config (codes "root")

abbrev fields_of : List Field
fields_of =
    record { key = codes "title"; value = codes "Linux" }
    ∷ record { key = codes "options"; value = [] }
    ∷ []

remap_devices-first_example :
    remap_devices standard_prefixes (root_entry ∷ [])
    ≡ map (remap_once standard_prefixes) (root_entry ∷ [])
remap_devices-first_example = remap_devices-first (root_entry ∷ [])

abbrev args : List Text
args = codes "quiet" ∷ codes "root=/dev/sda1" ∷ codes "resume=UUID=1" ∷ []

remap_kernel_args-again_example :
    remap_kernel_args (remap_kernel_args args standard_prefixes).0 standard_prefixes
    ≡ ((remap_kernel_args args standard_prefixes).0, false)
remap_kernel_args-again_example = remap_kernel_args-again args

-- A guest with one file in each place, whose writes reach the path that is written.
abbrev guest : Guest
guest = record {
  write = λ q text t.
      (true, record t { files = λ r. if text_eq r q then contents text else t.files r });
  blkid_uuid = λ d. [];
}

abbrev tree : Tree
tree = record {
  files = λ p. contents (codes "/dev/sda1 / ext4");
  dirs = λ p. listed (record { name = codes "a.conf"; is_dir = false } ∷ []);
}

guest-local :
    (q text : Text) (u : Tree)
    → codes "notes" ≢ q
    → (guest.write q text u).1.files (codes "notes") ≡ u.files (codes "notes")
guest-local q text u ne = ground (arith, ne, text_eq_iff (codes "notes") q)

not_rooted : (p : Text) → IsRooted p → codes "notes" ≢ p
not_rooted p r = IsRooted-ne p (codes "otes") b'n' r (λ e. cc)

root : (parts : List Text) → IsRooted (join_path (codes "/r" ∷ parts))
root parts = join_path-IsRooted (codes "/r") parts (codes "r", refl)

entries_dir-IsRooted : IsRooted (entries_dir (codes "/r"))
unfolding entries_dir
entries_dir-IsRooted = root (codes "boot" ∷ codes "loader" ∷ codes "entries" ∷ [])

not_conf :
    (name : Text)
    → has_suffix name (codes ".conf") ≡ true
    → codes "notes" ≢ join_path (entries_dir (codes "/r") ∷ name ∷ [])
not_conf name h =
    not_rooted _ (join_path-IsRooted (entries_dir (codes "/r")) (name ∷ []) entries_dir-IsRooted)

remap-keeps_example :
    (remap guest (codes "/r") tree).1.files (codes "notes") ≡ contents (codes "/dev/sda1 / ext4")
remap-keeps_example =
    remap-keeps guest (codes "/r") tree (codes "notes") guest-local
      (not_rooted _ (root (codes "etc/fstab" ∷ [])))
      (not_rooted _ (root (codes "etc" ∷ codes "crypttab" ∷ [])))
      (not_rooted _ (root (codes "etc" ∷ codes "default" ∷ codes "grub" ∷ []))) not_conf

-- The renamed arguments.
renamed :
    remap_kernel_args args standard_prefixes
    ≡ (codes "quiet" ∷ codes "root=/dev/vda1" ∷ codes "resume=UUID=1" ∷ [], true)
unfolding remap_kernel_args
renamed = refl
