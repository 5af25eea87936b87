-- ===== src/Remap.antt =====
-- pkg/convert-linux/remap/plugins/standard: block devices renamed to their virtio names in the guest's
-- /etc/fstab, /etc/crypttab, /etc/default/grub and Boot Loader Specification entries.
--
-- `Tree` is what the guest's files and directories answer to a read. `Guest` holds the two calls of
-- the guest wrapper that the remapper makes besides reading: `guest.FileWrite` and `guest.BlkidUUID`.
pub mod Prefixes
pub mod KernelArgs
pub mod Frame
use kc_utils.Base.{
  ℕ, ◌+◌, Bool, true, false, not, ◌||◌, ◌&&◌, List, [], ◌∷◌, ◌++◌, map, Option, none, some,
  if◌then◌else◌, length, drop,
}
use kc_utils.Text.{
  Text, codes, text_eq, is_empty, has_prefix, has_suffix, trim_prefix, fields, join,
}
use kc_utils.FilePath.{join_path}
use kc_utils.ConfigEdit.Fstab
use kc_utils.ConfigEdit.Fstab.{Entry, remap_device}
use kc_utils.ConfigEdit.Grub
use kc_utils.ConfigEdit.Grub.{Config}
use kc_utils.ConfigEdit.Bls
use kc_utils.ConfigEdit.Bls.{Field}

pub data FileAnswer : Type 0 where
  missing : FileAnswer
  unreadable : FileAnswer
  contents : Text → FileAnswer

pub record DirEntry : Type 0 where
  pub name : Text
  pub is_dir : Bool

pub data DirAnswer : Type 0 where
  no_dir : DirAnswer
  unlisted : DirAnswer
  listed : List DirEntry → DirAnswer

pub record Tree : Type 0 where
  pub files : Text → FileAnswer
  pub dirs : Text → DirAnswer

pub record Guest : Type 0 where
  pub write : Text → Text → Tree → Bool × Tree
  pub blkid_uuid : Text → Text

abbrev pub Prefixes : Type 0
Prefixes = List (Text × Text)

-- `remapPrefixes`
abbrev pub standard_prefixes : Prefixes
standard_prefixes =
    (codes "/dev/hd", codes "/dev/vd")
    ∷ (codes "/dev/sd", codes "/dev/vd")
    ∷ (codes "/dev/xvd", codes "/dev/vd")
    ∷ (codes "/dev/nvme0n1p", codes "/dev/vda")
    ∷ (codes "/dev/cciss/c0d0p", codes "/dev/vda")
    ∷ []

-- The loop over the prefixes with its `break` or `return`: the first that fits.
unfoldable pub replace_first : Prefixes → Text → Option Text
unfolding has_prefix
replace_first [] value = none
replace_first (p ∷ ps) value =
    let rest = replace_first ps value in
    if has_prefix value p.0 then some (p.1 ++ drop (length p.0) value) else rest

abbrev pub prefixed : Text → Option Text → Text → Text
prefixed prefix none arg = arg
prefixed prefix (some v) arg = prefix ++ v

-- `remapArgValue`
unfoldable pub remap_arg_value : Text → Text → Prefixes → Text
unfolding trim_prefix replace_first
remap_arg_value arg prefix ps = prefixed prefix (replace_first ps (trim_prefix arg prefix)) arg

-- `remapKernelArg`
unfoldable pub remap_kernel_arg : Text → Prefixes → Text
unfolding has_prefix remap_arg_value
remap_kernel_arg arg ps =
    if has_prefix arg (codes "resume=")
    then remap_arg_value arg (codes "resume=") ps
    else if has_prefix arg (codes "root=")
    then remap_arg_value arg (codes "root=") ps
    else arg

-- `remapKernelArgs`
unfoldable pub remap_kernel_args : List Text → Prefixes → List Text × Bool
unfolding text_eq remap_kernel_arg
remap_kernel_args [] ps = ([], false)
remap_kernel_args (a ∷ args) ps =
    let rest = remap_kernel_args args ps in
    let b = remap_kernel_arg a ps in (b ∷ rest.0, not (text_eq b a) || rest.1)

unfoldable pub remap_devices : Prefixes → List Entry → List Entry
unfolding remap_device
remap_devices [] es = es
remap_devices (p ∷ ps) es = remap_devices ps (remap_device p.0 p.1 es)

abbrev pub or_device : Option Text → Text → Text
or_device none dev = dev
or_device (some v) dev = v

-- A step after one that may have failed.
unfoldable pub and_then : Bool × Tree → (Tree → Bool × Tree) → Bool × Tree
and_then (true, t) k = k t
and_then (false, t) k = (false, t)

-- `entriesDir`
unfoldable pub entries_dir : Text → Text
unfolding join_path
entries_dir root = join_path (root ∷ codes "boot" ∷ codes "loader" ∷ codes "entries" ∷ [])

module _ (guest : Guest) where
  unfoldable pub remap_read_file : Text → Prefixes → FileAnswer → Tree → Bool × Tree
  unfolding Fstab.parse Fstab.to_string remap_devices
  remap_read_file path ps missing t = (true, t)
  remap_read_file path ps unreadable t = (false, t)
  remap_read_file path ps (contents text) t =
      guest.write path (Fstab.to_string (remap_devices ps (Fstab.parse text))) t

  -- `remapFile`
  unfoldable pub remap_file : Text → Text → Prefixes → Tree → Bool × Tree
  unfolding join_path
  remap_file root rel ps t =
      let path = join_path (root ∷ rel ∷ []) in remap_read_file path ps (t.files path) t

  -- The device of a line of crypttab.
  unfoldable pub remap_crypt_device : Prefixes → Text → Text
  unfolding replace_first has_prefix
  remap_crypt_device ps dev =
      let uuid = guest.blkid_uuid dev in
      if has_prefix dev (codes "/dev/sd") && not (is_empty uuid)
      then codes "UUID=" ++ uuid
      else or_device (replace_first ps dev) dev

  abbrev pub remap_crypt_entry : Prefixes → Entry → Entry
  remap_crypt_entry ps e =
      if not (is_empty e.comment) || is_empty e.mount_point
      then e
      else record e { mount_point = remap_crypt_device ps e.mount_point }

  unfoldable pub remap_read_crypttab : Text → Prefixes → FileAnswer → Tree → Bool × Tree
  unfolding Fstab.parse Fstab.to_string
  remap_read_crypttab path ps missing t = (true, t)
  remap_read_crypttab path ps unreadable t = (false, t)
  remap_read_crypttab path ps (contents text) t =
      guest.write path (Fstab.to_string (map (remap_crypt_entry ps) (Fstab.parse text))) t

  -- `remapCrypttab`
  unfoldable pub remap_crypttab : Text → Prefixes → Tree → Bool × Tree
  unfolding join_path
  remap_crypttab root ps t =
      let path = join_path (root ∷ codes "etc" ∷ codes "crypttab" ∷ []) in
      remap_read_crypttab path ps (t.files path) t

  -- One key of the loop of `remapGrubDefaults`, with `changed`.
  unfoldable pub remap_grub_key : Prefixes → Text → Config × Bool → Config × Bool
  unfolding Grub.get fields remap_kernel_args Grub.set_value join
  remap_grub_key ps key (cfg, changed) =
      let r = remap_kernel_args (fields (Grub.get cfg key)) ps in
      if r.1 then (Grub.set_value cfg key (join (b' ' ∷ []) r.0), true) else (cfg, changed)

  -- Both keys, in their order.
  unfoldable pub remap_grub_config : Prefixes → Config → Config × Bool
  remap_grub_config ps cfg =
      remap_grub_key ps (codes "GRUB_CMDLINE_LINUX_DEFAULT")
        (remap_grub_key ps (codes "GRUB_CMDLINE_LINUX") (cfg, false))

  unfoldable pub write_grub : Text → Config × Bool → Tree → Bool × Tree
  unfolding Grub.to_string
  write_grub path (cfg, changed) t =
      let written = guest.write path (Grub.to_string cfg) t in
      if changed then written else (true, t)

  unfoldable pub remap_read_grub : Text → Prefixes → FileAnswer → Tree → Bool × Tree
  unfolding Grub.parse remap_grub_config
  remap_read_grub path ps missing t = (true, t)
  remap_read_grub path ps unreadable t = (false, t)
  remap_read_grub path ps (contents text) t =
      write_grub path (remap_grub_config ps (Grub.parse text)) t

  -- `remapGrubDefaults`
  unfoldable pub remap_grub_defaults : Text → Prefixes → Tree → Bool × Tree
  unfolding join_path
  remap_grub_defaults root ps t =
      let path = join_path (root ∷ codes "etc" ∷ codes "default" ∷ codes "grub" ∷ []) in
      remap_read_grub path ps (t.files path) t

  unfoldable pub write_options : Text → List Field → List Text × Bool → Tree → Bool × Tree
  unfolding Bls.to_string Bls.set_value join
  write_options path parsed (args, changed) t =
      let written =
        guest.write path
          (Bls.to_string (Bls.set_value parsed (codes "options") (join (b' ' ∷ []) args))) t in
      if changed then written else (true, t)

  unfoldable pub remap_read_bls : Text → Prefixes → FileAnswer → Tree → Bool × Tree
  unfolding Bls.parse Bls.get fields remap_kernel_args
  remap_read_bls path ps missing t = (false, t)
  remap_read_bls path ps unreadable t = (false, t)
  remap_read_bls path ps (contents text) t =
      let parsed = Bls.parse text in
      write_options path parsed (remap_kernel_args (fields (Bls.get parsed (codes "options"))) ps) t

  -- One entry of the loop of `remapBLSEntries`.
  unfoldable pub remap_bls_entry : Text → Prefixes → DirEntry → Tree → Bool × Tree
  unfolding has_suffix join_path
  remap_bls_entry dir ps e t =
      let path = join_path (dir ∷ e.name ∷ []) in
      let done = remap_read_bls path ps (t.files path) t in
      if e.is_dir || not (has_suffix e.name (codes ".conf")) then (true, t) else done

  unfoldable pub remap_bls_list : Text → Prefixes → List DirEntry → Tree → Bool × Tree
  unfolding and_then
  remap_bls_list dir ps [] t = (true, t)
  remap_bls_list dir ps (e ∷ es) t =
      and_then (remap_bls_entry dir ps e t) (remap_bls_list dir ps es)

  unfoldable pub remap_listed : Text → Prefixes → DirAnswer → Tree → Bool × Tree
  unfolding remap_bls_list
  remap_listed dir ps no_dir t = (true, t)
  remap_listed dir ps unlisted t = (false, t)
  remap_listed dir ps (listed es) t = remap_bls_list dir ps es t

  -- `remapBLSEntries`
  unfoldable pub remap_bls_entries : Text → Prefixes → Tree → Bool × Tree
  remap_bls_entries root ps t = remap_listed (entries_dir root) ps (t.dirs (entries_dir root)) t

  -- `Remap`
  unfoldable pub remap : Text → Tree → Bool × Tree
  unfolding and_then remap_file remap_crypttab remap_grub_defaults remap_bls_entries
  remap root t = and_then (remap_file root (codes "etc/fstab") standard_prefixes t) λ t1.
      and_then (remap_crypttab root standard_prefixes t1) λ t2.
        and_then (remap_grub_defaults root standard_prefixes t2)
          (remap_bls_entries root standard_prefixes)
