-- ===== src/Remap/Frame.antt =====
-- The guest's files that the renaming does not edit.
use kc_utils.Base.{◌≡◌, ◌≢◌, refl, ◌∙◌, Bool, true, false, List, [], ◌∷◌, arith}
use kc_utils.Text.{Text, codes, has_suffix}
use kc_utils.FilePath.{join_path}
use kc_utils.ConfigEdit.Grub.{Config}
use kc_utils.ConfigEdit.Bls.{Field}
use kc_utils.Remap.{
  FileAnswer, missing, unreadable, contents, DirEntry, DirAnswer, no_dir, unlisted, listed, Tree,
  Guest, Prefixes, standard_prefixes, remap_read_file, remap_file, remap_read_crypttab,
  remap_crypttab, write_grub, remap_read_grub, remap_grub_defaults, write_options, remap_read_bls,
  remap_bls_entry, and_then, remap_bls_list, remap_listed, entries_dir, remap_bls_entries, remap,
}

module _ (guest : Guest) (p : Text)
    (local : (q text : Text) (t : Tree)
      → p ≢ q
      → (guest.write q text t).1.files p ≡ t.files p) where
  abbrev IsKept : Tree → Bool × Tree → Type 0
  IsKept t r = r.1.files p ≡ t.files p

  remap_read_file-IsKept :
      (q : Text) (ps : Prefixes) (a : FileAnswer) (t : Tree)
      → p ≢ q
      → IsKept t (remap_read_file guest q ps a t)
  unfolding remap_read_file
  remap_read_file-IsKept q ps missing t ne = refl
  remap_read_file-IsKept q ps unreadable t ne = refl
  remap_read_file-IsKept q ps (contents text) t ne = local q _ t ne

  remap_read_crypttab-IsKept :
      (q : Text) (ps : Prefixes) (a : FileAnswer) (t : Tree)
      → p ≢ q
      → IsKept t (remap_read_crypttab guest q ps a t)
  unfolding remap_read_crypttab
  remap_read_crypttab-IsKept q ps missing t ne = refl
  remap_read_crypttab-IsKept q ps unreadable t ne = refl
  remap_read_crypttab-IsKept q ps (contents text) t ne = local q _ t ne

  write_grub-IsKept :
      (q : Text) (r : Config × Bool) (t : Tree) → p ≢ q → IsKept t (write_grub guest q r t)
  unfolding write_grub
  write_grub-IsKept q (cfg, true) t ne = local q _ t ne
  write_grub-IsKept q (cfg, false) t ne = refl

  remap_read_grub-IsKept :
      (q : Text) (ps : Prefixes) (a : FileAnswer) (t : Tree)
      → p ≢ q
      → IsKept t (remap_read_grub guest q ps a t)
  unfolding remap_read_grub
  remap_read_grub-IsKept q ps missing t ne = refl
  remap_read_grub-IsKept q ps unreadable t ne = refl
  remap_read_grub-IsKept q ps (contents text) t ne = write_grub-IsKept q _ t ne

  write_options-IsKept :
      (q : Text) (parsed : List Field) (r : List Text × Bool) (t : Tree)
      → p ≢ q
      → IsKept t (write_options guest q parsed r t)
  unfolding write_options
  write_options-IsKept q parsed (args, true) t ne = local q _ t ne
  write_options-IsKept q parsed (args, false) t ne = refl

  remap_read_bls-IsKept :
      (q : Text) (ps : Prefixes) (a : FileAnswer) (t : Tree)
      → p ≢ q
      → IsKept t (remap_read_bls guest q ps a t)
  unfolding remap_read_bls
  remap_read_bls-IsKept q ps missing t ne = refl
  remap_read_bls-IsKept q ps unreadable t ne = refl
  remap_read_bls-IsKept q ps (contents text) t ne = write_options-IsKept q _ _ t ne

  -- Steps in a row keep what each keeps.
  and_then-IsKept :
      (t : Tree) (r : Bool × Tree) (k : Tree → Bool × Tree)
      → IsKept t r
      → ((t1 : Tree) → IsKept t1 (k t1))
      → IsKept t (and_then r k)
  unfolding and_then
  and_then-IsKept t (true, t1) k e h = h t1 ∙ e
  and_then-IsKept t (false, t1) k e h = e

  module _ (dir : Text)
      (conf : (name : Text)
        → has_suffix name (codes ".conf") ≡ true
        → p ≢ join_path (dir ∷ name ∷ [])) where
    remap_bls_entry-IsKept :
        (ps : Prefixes) (e : DirEntry) (t : Tree) → IsKept t (remap_bls_entry guest dir ps e t)
    unfolding remap_bls_entry
    remap_bls_entry-IsKept ps e t =
        let path = join_path (dir ∷ e.name ∷ []) in
        ground (arith, conf e.name, remap_read_bls-IsKept path ps (t.files path) t)

    remap_bls_list-IsKept :
        (ps : Prefixes) (es : List DirEntry) (t : Tree)
        → IsKept t (remap_bls_list guest dir ps es t)
    unfolding remap_bls_list
    remap_bls_list-IsKept ps [] t = refl
    remap_bls_list-IsKept ps (e ∷ es) t =
        and_then-IsKept t (remap_bls_entry guest dir ps e t) _ (remap_bls_entry-IsKept ps e t)
          (λ t1. remap_bls_list-IsKept ps es t1)

    remap_listed-IsKept :
        (ps : Prefixes) (a : DirAnswer) (t : Tree) → IsKept t (remap_listed guest dir ps a t)
    unfolding remap_listed
    remap_listed-IsKept ps no_dir t = refl
    remap_listed-IsKept ps unlisted t = refl
    remap_listed-IsKept ps (listed es) t = remap_bls_list-IsKept ps es t

-- `Remap`, whether it fails or not, leaves a file as it was that is none of /etc/fstab, /etc/crypttab,
-- /etc/default/grub and the .conf files of /boot/loader/entries under the guest's root, if a write
-- does not reach the file from another path.
pub remap-keeps :
    (guest : Guest) (root : Text) (t : Tree) (p : Text)
    → ((q text : Text) (u : Tree) → p ≢ q → (guest.write q text u).1.files p ≡ u.files p)
    → p ≢ join_path (root ∷ codes "etc/fstab" ∷ [])
    → p ≢ join_path (root ∷ codes "etc" ∷ codes "crypttab" ∷ [])
    → p ≢ join_path (root ∷ codes "etc" ∷ codes "default" ∷ codes "grub" ∷ [])
    → ((name : Text)
        → has_suffix name (codes ".conf") ≡ true
        → p ≢ join_path (entries_dir root ∷ name ∷ []))
    → (remap guest root t).1.files p ≡ t.files p
unfolding remap remap_file remap_crypttab remap_grub_defaults remap_bls_entries
remap-keeps guest root t p local fstab crypttab grub conf =
    let ps : Prefixes = standard_prefixes in
    and_then-IsKept guest p local t (remap_file guest root (codes "etc/fstab") ps t) _
      (remap_read_file-IsKept guest p local _ ps (t.files _) t fstab)
      λ t1.
        and_then-IsKept guest p local t1 (remap_crypttab guest root ps t1) _
          (remap_read_crypttab-IsKept guest p local _ ps (t1.files _) t1 crypttab)
          λ t2.
            and_then-IsKept guest p local t2 (remap_grub_defaults guest root ps t2) _
              (remap_read_grub-IsKept guest p local _ ps (t2.files _) t2 grub)
              λ t3. remap_listed-IsKept guest p local (entries_dir root) conf ps (t3.dirs _) t3
