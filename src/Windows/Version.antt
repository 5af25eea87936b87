-- ===== src/Windows/Version.antt =====
-- pkg/convert-windows/version: the handlers of the Windows versions, and how a guest is classified.
-- A handler is a constructor, and each method of the Go interface is a function by clauses.
use kc_utils.Base.{
  ℕ, Bool, true, false, not, ◌&&◌, ◌||◌, List, [], ◌∷◌, Option, none, some, ◌==◌, leb,
  if◌then◌else◌,
}
use kc_utils.Text.{
  Text, codes, text_eq, is_empty, contains, remove_all, trim_space, to_lower, fields, join,
}

-- The fields of `types.InspectData` that the handlers read.
pub record InspectData : Type 0 where
  pub major_version : ℕ
  pub minor_version : ℕ
  pub product_name : Text

-- `NormalizeProductName`
unfoldable pub normalize_product_name : Text → Text
normalize_product_name product_name =
    let s = remove_all product_name (0 ∷ []) in
    let s = to_lower (trim_space s) in
    let s = remove_all s (codes "(r)") in
    let s = remove_all s (codes "(tm)") in join (codes " ") (fields s)

-- `isServerProduct`
unfoldable pub is_server_product : Text → Bool
is_server_product name = contains (normalize_product_name name) (codes "server")

-- `isWindows11Product`
unfoldable pub is_windows_11_product : Text → Bool
is_windows_11_product name =
    let n = normalize_product_name name in
    contains n (codes "windows 11")
    || contains n (codes "server 2022")
    || contains n (codes "server 2025")

pub data VersionHandler : Type 0 where
  win11 win10 win81 win8 win7 win2008r2 : VersionHandler
  win2008 winvista win2003 winxp winunknown : VersionHandler

pub data LauncherKind : Type 0 where
  modern psv1 bat_only : LauncherKind

pub data StaticIpKind : Type 0 where
  net_cmdlet registry wmi_netsh : StaticIpKind

pub data DiskOnlineKind : Type 0 where
  get_disk wmi_diskpart skip_online : DiskOnlineKind

pub data VmwareCleanupKind : Type 0 where
  pnp devcon_bat skip_cleanup : VmwareCleanupKind

-- `Matches`
unfoldable pub matches : VersionHandler → InspectData → Bool
matches win11 i = leb 10 i.major_version && is_windows_11_product i.product_name
matches win10 i = leb 10 i.major_version && not (is_windows_11_product i.product_name)
matches win81 i = i.major_version == 6 && i.minor_version == 3
matches win8 i = i.major_version == 6 && i.minor_version == 2
matches win7 i =
    let n = normalize_product_name i.product_name in
    if i.major_version == 6 && (i.minor_version == 1 && not (is_server_product i.product_name))
    then true
    else i.major_version == 0
      && (not (is_empty n) && (not (is_server_product n) && contains n (codes "windows 7")))
matches win2008r2 i =
    let n = normalize_product_name i.product_name in
    if i.major_version == 6 && (i.minor_version == 1 && is_server_product i.product_name)
    then true
    else contains n (codes "server 2008 r2") || contains n (codes "2008 r2")
matches win2008 i =
    let n = normalize_product_name i.product_name in
    if i.major_version == 6 && (i.minor_version == 0 && is_server_product i.product_name)
    then true
    else contains n (codes "server 2008") && not (contains n (codes "2008 r2"))
matches winvista i =
    let n = normalize_product_name i.product_name in
    if i.major_version == 6 && (i.minor_version == 0 && not (is_server_product i.product_name))
    then true
    else not (is_empty n) && (contains n (codes "vista") && not (is_server_product n))
matches win2003 i =
    let n = normalize_product_name i.product_name in
    if i.major_version == 5 && i.minor_version == 2
    then true
    else contains n (codes "server 2003") || contains n (codes "2003 server")
matches winxp i =
    let n = normalize_product_name i.product_name in
    if i.major_version == 5 && i.minor_version == 1
    then true
    else contains n (codes "windows xp") || text_eq n (codes "xp")
matches winunknown i = true

-- `DriverOSPreferences`
unfoldable pub driver_os_preferences : VersionHandler → List Text
driver_os_preferences win11 = codes "w11" ∷ []
driver_os_preferences win10 = codes "w10" ∷ []
driver_os_preferences win81 = codes "w8.1" ∷ []
driver_os_preferences win8 = codes "w8" ∷ []
driver_os_preferences win7 = codes "w7" ∷ []
driver_os_preferences win2008r2 = codes "2k8r2" ∷ []
driver_os_preferences win2008 = codes "2k8" ∷ []
driver_os_preferences winvista = codes "vista" ∷ []
driver_os_preferences win2003 = codes "2k3" ∷ []
driver_os_preferences winxp = codes "xp" ∷ []
driver_os_preferences winunknown = []

-- `DriverOSFallbacks`
unfoldable pub driver_os_fallbacks : VersionHandler → List Text
driver_os_fallbacks win11 = []
driver_os_fallbacks win10 = []
driver_os_fallbacks win81 = []
driver_os_fallbacks win8 = []
driver_os_fallbacks win7 = []
driver_os_fallbacks win2008r2 = []
driver_os_fallbacks win2008 = codes "2k8R2" ∷ []
driver_os_fallbacks winvista = []
driver_os_fallbacks win2003 = []
driver_os_fallbacks winxp = []
driver_os_fallbacks winunknown = []

-- `FirstbootLauncher`
unfoldable pub firstboot_launcher : VersionHandler → LauncherKind
firstboot_launcher win11 = modern
firstboot_launcher win10 = modern
firstboot_launcher win81 = modern
firstboot_launcher win8 = modern
firstboot_launcher win7 = psv1
firstboot_launcher win2008r2 = psv1
firstboot_launcher win2008 = psv1
firstboot_launcher winvista = psv1
firstboot_launcher win2003 = bat_only
firstboot_launcher winxp = bat_only
firstboot_launcher winunknown = modern

-- `SupportsPowerShell`
unfoldable pub supports_power_shell : VersionHandler → Bool
supports_power_shell win11 = true
supports_power_shell win10 = true
supports_power_shell win81 = true
supports_power_shell win8 = true
supports_power_shell win7 = true
supports_power_shell win2008r2 = true
supports_power_shell win2008 = true
supports_power_shell winvista = true
supports_power_shell win2003 = false
supports_power_shell winxp = false
supports_power_shell winunknown = true

-- `StaticIPMode`
unfoldable pub static_ip_mode : VersionHandler → StaticIpKind
static_ip_mode win11 = net_cmdlet
static_ip_mode win10 = net_cmdlet
static_ip_mode win81 = net_cmdlet
static_ip_mode win8 = net_cmdlet
static_ip_mode win7 = registry
static_ip_mode win2008r2 = registry
static_ip_mode win2008 = wmi_netsh
static_ip_mode winvista = wmi_netsh
static_ip_mode win2003 = registry
static_ip_mode winxp = registry
static_ip_mode winunknown = net_cmdlet

-- `DiskOnlineMode`
unfoldable pub disk_online_mode : VersionHandler → DiskOnlineKind
disk_online_mode win11 = get_disk
disk_online_mode win10 = get_disk
disk_online_mode win81 = get_disk
disk_online_mode win8 = get_disk
disk_online_mode win7 = wmi_diskpart
disk_online_mode win2008r2 = wmi_diskpart
disk_online_mode win2008 = skip_online
disk_online_mode winvista = wmi_diskpart
disk_online_mode win2003 = wmi_diskpart
disk_online_mode winxp = skip_online
disk_online_mode winunknown = get_disk

-- `VMwareCleanupMode`
unfoldable pub vmware_cleanup_mode : VersionHandler → VmwareCleanupKind
vmware_cleanup_mode win11 = pnp
vmware_cleanup_mode win10 = pnp
vmware_cleanup_mode win81 = pnp
vmware_cleanup_mode win8 = pnp
vmware_cleanup_mode win7 = devcon_bat
vmware_cleanup_mode win2008r2 = devcon_bat
vmware_cleanup_mode win2008 = devcon_bat
vmware_cleanup_mode winvista = devcon_bat
vmware_cleanup_mode win2003 = devcon_bat
vmware_cleanup_mode winxp = devcon_bat
vmware_cleanup_mode winunknown = pnp

-- `DriverRegistrarName`
unfoldable pub driver_registrar_name : VersionHandler → Text
driver_registrar_name win11 = codes "driverdb"
driver_registrar_name win10 = codes "driverdb"
driver_registrar_name win81 = codes "driverdb"
driver_registrar_name win8 = codes "driverdb"
driver_registrar_name win7 = codes "criticaldb"
driver_registrar_name win2008r2 = codes "criticaldb"
driver_registrar_name win2008 = codes "criticaldb"
driver_registrar_name winvista = codes "criticaldb"
driver_registrar_name win2003 = codes "criticaldb"
driver_registrar_name winxp = codes "criticaldb"
driver_registrar_name winunknown = codes "driverdb"

-- `NeedsNTFSHeadsFix`
unfoldable pub needs_ntfs_heads_fix : VersionHandler → Bool
needs_ntfs_heads_fix win11 = false
needs_ntfs_heads_fix win10 = false
needs_ntfs_heads_fix win81 = false
needs_ntfs_heads_fix win8 = false
needs_ntfs_heads_fix win7 = false
needs_ntfs_heads_fix win2008r2 = false
needs_ntfs_heads_fix win2008 = false
needs_ntfs_heads_fix winvista = false
needs_ntfs_heads_fix win2003 = true
needs_ntfs_heads_fix winxp = true
needs_ntfs_heads_fix winunknown = false

-- `Name`
unfoldable pub name : VersionHandler → Text
name win11 = codes "win11"
name win10 = codes "win10"
name win81 = codes "win81"
name win8 = codes "win8"
name win7 = codes "win7"
name win2008r2 = codes "win2008r2"
name win2008 = codes "win2008"
name winvista = codes "winvista"
name win2003 = codes "win2003"
name winxp = codes "winxp"
name winunknown = codes "winunknown"

-- `handlersWithoutGuestAgent` and `CollectGuestAgentMSI`
abbrev pub handlers_without_guest_agent : List Text
handlers_without_guest_agent =
    codes "win2008" ∷ codes "winvista" ∷ codes "win2003" ∷ codes "winxp" ∷ []

unfoldable pub listed : Text → List Text → Bool
listed t [] = false
listed t (x ∷ xs) = text_eq t x || listed t xs

unfoldable pub collect_guest_agent_msi : Text → Bool
collect_guest_agent_msi handler_name =
    if is_empty handler_name then true else not (listed handler_name handlers_without_guest_agent)

-- The order in which `init` registers the handlers.
abbrev pub classify_order : List VersionHandler
classify_order =
    win11 ∷ win10 ∷ win81 ∷ win8 ∷ win7 ∷ win2008r2 ∷ win2008 ∷ winvista ∷ win2003 ∷ winxp ∷ []

unfoldable pub first_match : List VersionHandler → InspectData → VersionHandler
first_match [] i = winunknown
first_match (h ∷ hs) i = let rest = first_match hs i in if matches h i then h else rest

-- `Classify`; `none` is the nil pointer.
unfoldable pub classify : Option InspectData → VersionHandler
unfolding first_match
classify none = winunknown
classify (some i) = first_match classify_order i
