-- ===== src/Windows/Classify.antt =====
-- The classification of guests, and the methods of the handlers side by side.
use kc_utils.Base.{
  ℕ, ◌≤◌, ◌≡◌, refl, Bool, ◌||◌, ◌↔◌, ◌⊎◌, inl, inr, true, false, List, [], ◌∷◌, ◌++◌, some, arith,
  All, ap, ◌==◌, ◌&&◌, not, if◌then◌else◌, Bool-cases,
}
use kc_utils.Text.{Text, codes, contains, is_empty, text_eq}
use kc_utils.Windows.Version.{
  InspectData, is_server_product, is_windows_11_product, VersionHandler, win11, win10, win81, win8,
  win7, win2008r2, win2008, winvista, win2003, winxp, winunknown, normalize_product_name, modern,
  bat_only, net_cmdlet, get_disk, pnp, firstboot_launcher, supports_power_shell, static_ip_mode,
  disk_online_mode, vmware_cleanup_mode, needs_ntfs_heads_fix, name, listed,
  collect_guest_agent_msi, matches, classify_order, first_match, classify,
}

-- Where in the order a guest's handler stands: it matches, and no handler before it does.
pub record IsFirst (i : InspectData) (order : List VersionHandler) (h : VersionHandler)
    : Type 0 where
  pub before : List VersionHandler
  pub after : List VersionHandler
  pub splits : order ≡ before ++ h ∷ after
  pub none_before : All (λ k. matches k i ≡ false) before
  pub fits : matches h i ≡ true

first_match-IsFirst :
    (order : List VersionHandler) (i : InspectData)
    → IsFirst i order (first_match order i)
      ⊎ ((first_match order i ≡ winunknown) × All (λ k. matches k i ≡ false) order)
unfolding first_match
first_match-IsFirst [] i = inr (refl, tt)
first_match-IsFirst (h ∷ hs) i = elim (Bool-cases (matches h i)) [
  | inl e ↦
      rw e (inl (record { before = []; after = hs; splits = refl; none_before = tt; fits = e }))
  | inr e ↦ rw e (elim (first_match-IsFirst hs i) [
    | inl f ↦ inl (record {
      before = h ∷ f.before;
      after = f.after;
      splits = ap (◌∷◌ h) f.splits;
      none_before = (e, f.none_before);
      fits = f.fits;
    })
    | inr (u, m) ↦ inr (u, (refl, m))
  ])
]

-- A guest gets the first handler in the order of registration that matches it, and `winunknown`
-- only if none does.
pub classify-IsFirst :
    (i : InspectData)
    → IsFirst i classify_order (classify (some i))
      ⊎ ((classify (some i) ≡ winunknown) × All (λ k. matches k i ≡ false) classify_order)
unfolding classify
classify-IsFirst i = first_match-IsFirst classify_order i

-- From major version 10 on a guest is Windows 11 or Windows 10, by its product name.
pub classify-modern :
    (i : InspectData)
    → 10 ≤ i.major_version
    → classify (some i) ≡ (if is_windows_11_product i.product_name then win11 else win10)
unfolding classify first_match matches
classify-modern i h = ground arith

-- Of major version 6, the minor version 3 is Windows 8.1, 2 is Windows 8, and 1 is Windows Server 2008
-- R2 or Windows 7, by whether the product name is a server's.
pub classify_nt6 :
    (i : InspectData)
    → i.major_version ≡ 6
    → 1 ≤ i.minor_version
    → i.minor_version ≤ 3
    → classify (some i) ≡ (
        if i.minor_version == 3
        then win81
        else if i.minor_version == 2
        then win8
        else if is_server_product i.product_name
        then win2008r2
        else win7)
unfolding classify first_match matches
classify_nt6 i h k m = ground arith

abbrev pub guest : ℕ → ℕ → Text → InspectData
guest major minor product_name = record {
  major_version = major;
  minor_version = minor;
  product_name = product_name;
}

-- The name tells of Windows Server 2008 R2.
abbrev pub tells_2008r2 : Text → Bool
tells_2008r2 n = contains n (codes "server 2008 r2") || contains n (codes "2008 r2")

-- The handler of a guest older than Vista: the one of its version, but for a name that tells of a later
-- system.
abbrev pub unless_later : Text → VersionHandler → VersionHandler
unless_later n h =
    if tells_2008r2 n
    then win2008r2
    else if contains n (codes "server 2008")
    then win2008
    else if contains n (codes "vista") && not (is_empty n || is_server_product n)
    then winvista
    else h

module _ (p : Text) where
  abbrev normal : Text
  normal = normalize_product_name p

  classify6_3 : classify (some (guest 6 3 p)) ≡ win81
  unfolding classify first_match matches
  classify6_3 = ground arith

  classify6_2 : classify (some (guest 6 2 p)) ≡ win8
  unfolding classify first_match matches
  classify6_2 = ground arith

  classify6_1 : classify (some (guest 6 1 p)) ≡ (if is_server_product p then win2008r2 else win7)
  unfolding classify first_match matches
  classify6_1 = ground arith

  classify6_0 : classify (some (guest 6 0 p)) ≡ (
      if tells_2008r2 normal
      then win2008r2
      else if is_server_product p || contains normal (codes "server 2008")
      then win2008
      else winvista)
  unfolding classify first_match matches
  classify6_0 = ground arith

  classify5_2 : classify (some (guest 5 2 p)) ≡ unless_later normal win2003
  unfolding classify first_match matches
  classify5_2 = ground arith

  classify5_1 :
      classify (some (guest 5 1 p))
      ≡ unless_later normal (
          if contains normal (codes "server 2003") || contains normal (codes "2003 server")
          then win2003
          else winxp)
  unfolding classify first_match matches
  classify5_1 = ground arith

-- What guests of the versions that Windows has are classified as.
unfoldable pub AreClassified : ℕ → ℕ → Text → Type 0
AreClassified major minor p =
    (classify (some (guest major minor p)) ≡ (if is_windows_11_product p then win11 else win10))
    × (classify (some (guest 6 3 p)) ≡ win81)
    × (classify (some (guest 6 2 p)) ≡ win8)
    × (classify (some (guest 6 1 p)) ≡ (if is_server_product p then win2008r2 else win7))
    × (classify (some (guest 6 0 p)) ≡ (
        if tells_2008r2 (normalize_product_name p)
        then win2008r2
        else if is_server_product p || contains (normalize_product_name p) (codes "server 2008")
        then win2008
        else winvista))
    × (classify (some (guest 5 2 p)) ≡ unless_later (normalize_product_name p) win2003)
    × (classify (some (guest 5 1 p))
        ≡ unless_later (normalize_product_name p) (
            if contains (normalize_product_name p) (codes "server 2003")
              || contains (normalize_product_name p) (codes "2003 server")
            then win2003
            else winxp))

-- A guest of a version that Windows has is classified by it. From 10 on it is Windows 11 or 10, by its
-- product name; 6.3 and 6.2 are Windows 8.1 and 8; 6.1 is Server 2008 R2 or Windows 7, by whether the name
-- is a server's. A name that tells of 2008 R2 makes 6.0 that, and otherwise 6.0 is Server 2008 if the name
-- is a server's or tells of it, and Vista if not. 5.2 is Server 2003, and 5.1 is XP, or Server 2003 by its
-- name, unless the name tells of 2008 R2, Server 2008 or Vista.
pub classify-versions : (major minor : ℕ) (p : Text) → 10 ≤ major → AreClassified major minor p
unfolding AreClassified
classify-versions major minor p h = (
  classify-modern (guest major minor p) h,
  classify6_3 p,
  classify6_2 p,
  classify6_1 p,
  classify6_0 p,
  classify5_2 p,
  classify5_1 p,
)

-- What the parts of a conversion rely on together: a guest without PowerShell is exactly one with
-- the batch launcher and with the fix of the NTFS heads, it gets no guest agent, and the cmdlets for
-- addresses, disks and clean-up are used exactly with the modern launcher, which needs PowerShell.
pub handlers_agree :
    (h : VersionHandler)
    → ((supports_power_shell h ≡ false) ↔ (firstboot_launcher h ≡ bat_only))
      × ((collect_guest_agent_msi (name h) && not (supports_power_shell h)) ≡ false)
      × ((needs_ntfs_heads_fix h ≡ true) ↔ (supports_power_shell h ≡ false))
      × ((static_ip_mode h ≡ net_cmdlet) ↔ (firstboot_launcher h ≡ modern))
      × ((disk_online_mode h ≡ get_disk) ↔ (firstboot_launcher h ≡ modern))
      × ((vmware_cleanup_mode h ≡ pnp) ↔ (firstboot_launcher h ≡ modern))
unfolding supports_power_shell firstboot_launcher collect_guest_agent_msi name needs_ntfs_heads_fix
    static_ip_mode disk_online_mode vmware_cleanup_mode listed text_eq
handlers_agree win11 = ground arith
handlers_agree _ = ground arith
