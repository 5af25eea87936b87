-- ===== src/ConvertLinux/Kernels.antt =====
-- The kernel that kc-convert-linux selects, and the buses that its output names.
use kc_utils.Base.{
  ◌≡◌, refl, ◌∙◌, sym, ap, ◌⊎◌, if-holds, inl, inr, Bool, true, false, List, [], ◌∷◌, Option, none,
  some, arith, All, Bool-cases, not, ◌&&◌,
}
use kc_utils.Text.{Text, codes}
use kc_utils.Sort.{text_less}
use kc_utils.ConvertLinux.{
  KernelInfo, is_bootable, better, best_from, best_kernel, GuestCaps, build_caps, ConverterOutput,
  scan_kernels, converter_output, initramfs_fails, or_x86, Input, Host, run_convert_linux,
}

-- A kernel of the list that can be booted and whose support of virtio is as told.
unfoldable pub HasKernel : Bool → List KernelInfo → Type 0
HasKernel virtio [] = ⊥
HasKernel virtio (k ∷ ks) = ((is_bootable k ≡ true) × (k.has_virtio ≡ virtio)) ⊎ HasKernel virtio ks

unfoldable pub IsUnbootable : KernelInfo → Type 0
IsUnbootable k = is_bootable k ≡ false

-- What the selection answers: no kernel if none of the list can be booted.
unfoldable Answers : List KernelInfo → Option KernelInfo → Option KernelInfo → Type 0
unfolding IsUnbootable HasKernel
Answers ks best none = (best ≡ none) × All IsUnbootable ks
Answers ks best (some k) = (best ≡ some k) ⊎ HasKernel k.has_virtio ks

better-either :
    (k : KernelInfo) (best : Option KernelInfo)
    → (better k best ≡ k) ⊎ (best ≡ some (better k best))
unfolding better text_less
better-either k none = inl refl
better-either k (some b) = elim (Bool-cases (k.has_virtio && not b.has_virtio)) [
  | inl e ↦ rw e (inl refl)
  | inr e ↦ elim (Bool-cases (text_less b.version k.version)) [
    | inl f ↦ rw (e, f) (inl refl)
    | inr f ↦ rw (e, f) (inr refl)
  ]
]

Answers-bootable :
    (k : KernelInfo) (ks : List KernelInfo) (best r : Option KernelInfo)
    → is_bootable k ≡ true
    → Answers ks (some (better k best)) r
    → Answers (k ∷ ks) best r
unfolding Answers HasKernel IsUnbootable
Answers-bootable k ks best none h a = absurd (cc (a.0))
Answers-bootable k ks best (some r) h (inr a) = inr (inr a)
Answers-bootable k ks best (some r) h (inl e) = elim (better-either k best) [
  | inl f ↦ inr (inl (h, let g : better k best ≡ r = cc (e) in ap (λ j. j.has_virtio) (sym f ∙ g)))
  | inr f ↦ inl (f ∙ e)
]

Answers-unbootable :
    (k : KernelInfo) (ks : List KernelInfo) (best r : Option KernelInfo)
    → is_bootable k ≡ false
    → Answers ks best r
    → Answers (k ∷ ks) best r
unfolding Answers HasKernel IsUnbootable
Answers-unbootable k ks best none h a = (a.0, (h, a.1))
Answers-unbootable k ks best (some r) h (inl e) = inl e
Answers-unbootable k ks best (some r) h (inr a) = inr (inr a)

best_from-Answers :
    (best : Option KernelInfo) (ks : List KernelInfo) → Answers ks best (best_from best ks)
unfolding best_from Answers IsUnbootable
best_from-Answers none [] = (refl, tt)
best_from-Answers (some b) [] = inl refl
best_from-Answers best (k ∷ ks) = elim (Bool-cases (is_bootable k)) [
  | inl e ↦ rw e (
      Answers-bootable k ks best (best_from (some (better k best)) ks) e
        (best_from-Answers (some (better k best)) ks))
  | inr e ↦ rw e (Answers-unbootable k ks best (best_from best ks) e (best_from-Answers best ks))
]

-- What the buses of the written capabilities say about the kernels of the guest.
unfoldable pub AreBusesOf : List KernelInfo → GuestCaps → Type 0
AreBusesOf ks caps =
    ((caps.block_bus ≡ codes "ide")
      × (caps.net_bus ≡ codes "e1000")
      × (caps.virtio_rng ≡ false)
      × HasKernel false ks)
    ⊎ ((caps.block_bus ≡ codes "virtio")
        × (caps.net_bus ≡ codes "virtio")
        × (caps.virtio_rng ≡ true)
        × (HasKernel true ks ⊎ All IsUnbootable ks))

AreBusesOf-selected :
    (arch : Text) (ks : List KernelInfo) (virtio : Bool) (k : KernelInfo)
    → k.has_virtio ≡ virtio
    → HasKernel virtio ks
    → AreBusesOf ks (build_caps arch (some k))
unfolding AreBusesOf build_caps
AreBusesOf-selected arch ks true k e h = rw e (inr (refl, refl, refl, inl h))
AreBusesOf-selected arch ks false k e h = rw e (inl (refl, refl, refl, h))

build_caps-AreBusesOf :
    (arch : Text) (ks : List KernelInfo) (r : Option KernelInfo)
    → Answers ks none r
    → AreBusesOf ks (build_caps arch r)
unfolding Answers AreBusesOf build_caps
build_caps-AreBusesOf arch ks none a = inr (refl, refl, refl, inr a.1)
build_caps-AreBusesOf arch ks (some k) (inl e) = absurd (cc (e))
build_caps-AreBusesOf arch ks (some k) (inr h) = AreBusesOf-selected arch ks k.has_virtio k refl h

-- What a run leaves: an output exactly if it succeeds, with buses that fit the kernels.
unfoldable pub IsConverted : List KernelInfo → Bool × Option ConverterOutput → Type 0
unfolding AreBusesOf
IsConverted ks (ok, none) = ok ≡ false
IsConverted ks (ok, some output) = (ok ≡ true) × AreBusesOf ks output.guest_caps

run_convert_linux-written :
    (input : Input) (host : Host) → IsConverted (scan_kernels host) (run_convert_linux input host)
unfolding IsConverted run_convert_linux converter_output best_kernel
run_convert_linux-written input host =
    let P : Bool × Option ConverterOutput → Type 0 = IsConverted (scan_kernels host) in
    if-holds P (not host.attach_ok) _ _ (λ a. refl)
      (λ a.
        if-holds P (initramfs_fails (best_kernel (scan_kernels host)) host.initramfs_error) _ _
          (λ b. refl)
          (λ b.
            if-holds P host.write_ok _ _
              (λ c. (
                refl,
                build_caps-AreBusesOf (or_x86 input.arch) (scan_kernels host)
                    (best_kernel (scan_kernels host)) (best_from-Answers none (scan_kernels host)),
              ))
              (λ c. refl)))

run_convert_linux-succeeds :
    (input : Input) (host : Host)
    → (run_convert_linux input host).0 ≡ (
        host.attach_ok
        && (not (initramfs_fails (best_kernel (scan_kernels host)) host.initramfs_error)
            && host.write_ok))
unfolding run_convert_linux
run_convert_linux-succeeds input host = ground arith

-- A run of kc-convert-linux succeeds exactly if the guest is attached, the initramfs of a selected kernel
-- is rebuilt and the output is written, whatever errors the other blocks report. It writes an output
-- exactly if it succeeds. The output names the buses ide and e1000, and no virtio RNG, only for a guest
-- with a bootable kernel without virtio; otherwise it names virtio for both, with the RNG, and the guest
-- has a bootable kernel with virtio or no kernel that can be booted.
pub run_convert_linux-IsConverted :
    (input : Input) (host : Host)
    → ((run_convert_linux input host).0 ≡ (
        host.attach_ok
        && (not (initramfs_fails (best_kernel (scan_kernels host)) host.initramfs_error)
            && host.write_ok)))
      × IsConverted (scan_kernels host) (run_convert_linux input host)
run_convert_linux-IsConverted input host =
    (run_convert_linux-succeeds input host, run_convert_linux-written input host)
