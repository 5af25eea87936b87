-- ===== src/Copy/Select/Lookup.antt =====
-- What the map of the lease holds, and the normal path of a snapshot's file.
use kc_utils.Base.{
  ℕ, ◌-◌, ◌≡◌, refl, sym, ap, ◌∙◌, inl, inr, Bool, true, false, List, [], ◌∷◌, ◌++◌, Option, none,
  some, arith, if◌then◌else◌, length, take, drop, get_or, length-append, append_assoc, suc,
  Bool-cases,
}
use kc_utils.Text.{Text, text_eq, is_empty, has_suffix}
use kc_utils.Text.Laws.{text_eq_iff, text_eq_refl, drop-append}
use kc_utils.Copy.Select.{
  DiskUrl, all_digits, is_six_digits, vmdk_suffix, is_delta, normalize_disk_path, DiskMap, lookup,
  put_unless, add_first, by_path, cons_disk, source_key, select_source, select_sources,
  filter_disk_urls,
}

-- The first disk of the lease whose normal path is this.
abbrev first_disk : Text → List DiskUrl → Option DiskUrl
first_disk key [] = none
first_disk key (d ∷ ds) =
    if text_eq (normalize_disk_path d.disk_path) key then some d else first_disk key ds

abbrev or_else : Option DiskUrl → Option DiskUrl → Option DiskUrl
or_else none other = other
or_else (some d) other = some d

-- The disk that a source names, by its trimmed and normal path.
abbrev source_disk : List DiskUrl → Text → Option DiskUrl
source_disk lease src =
    if is_empty (source_key src) then none else first_disk (source_key src) lease

-- The disks of all sources in their order, or nothing when one has none.
abbrev pub source_disks : List DiskUrl → List Text → Option (List DiskUrl)
source_disks lease [] = some []
source_disks lease (src ∷ srcs) = cons_disk (source_disk lease src) (source_disks lease srcs)

or_else-none : (o : Option DiskUrl) → or_else o none ≡ o
or_else-none none = refl
or_else-none (some d) = refl

lookup-put_same :
    (o : Option DiskUrl) (key k : Text) (d : DiskUrl) (m : DiskMap)
    → text_eq k key ≡ true
    → lookup key m ≡ o
    → lookup key (put_unless o k d m)
      ≡ or_else (lookup key m) (if text_eq k key then some d else none)
unfolding lookup put_unless
lookup-put_same none key k d m t e = rw (e, t) refl
lookup-put_same (some o) key k d m t e = rw e refl

lookup-put_other :
    (o : Option DiskUrl) (key k : Text) (d : DiskUrl) (m : DiskMap)
    → text_eq k key ≡ false
    → lookup key (put_unless o k d m) ≡ lookup key m
unfolding lookup put_unless
lookup-put_other none key k d m t = rw t refl
lookup-put_other (some o) key k d m t = refl

lookup-put_unless :
    (o : Option DiskUrl) (key k : Text) (d : DiskUrl) (m : DiskMap)
    → o ≡ lookup k m
    → lookup key (put_unless o k d m)
      ≡ or_else (lookup key m) (if text_eq k key then some d else none)
unfolding lookup put_unless
lookup-put_unless o key k d m e = elim (Bool-cases (text_eq k key)) [
  | inl t ↦
      let same : lookup key m ≡ o = ap (λ x. lookup x m) (sym ((text_eq_iff k key).0 t)) ∙ sym e in
      lookup-put_same o key k d m t same
  | inr t ↦ rw t (lookup-put_other o key k d m t ∙ sym (or_else-none (lookup key m)))
]

or_else_assoc : (a b c : Option DiskUrl) → or_else (or_else a b) c ≡ or_else a (or_else b c)
or_else_assoc none b c = refl
or_else_assoc (some a) b c = refl

-- The first item of the sum of an `if`.
or_else-if :
    (t : Bool) (d : DiskUrl) (o : Option DiskUrl)
    → or_else (if t then some d else none) o ≡ (if t then some d else o)
or_else-if true d o = refl
or_else-if false d o = refl

ne_of_empty : (a b : Text) → is_empty a ≡ true → is_empty b ≡ false → text_eq a b ≡ false
unfolding text_eq
ne_of_empty [] [] h k = ground (arith, k)
ne_of_empty [] (c ∷ b) h k = refl
ne_of_empty (c ∷ a) b h k = ground (arith, h)

lookup-by_path :
    (key : Text) (ds : List DiskUrl) (m : DiskMap)
    → is_empty key ≡ false
    → lookup key (by_path ds m) ≡ or_else (lookup key m) (first_disk key ds)
unfolding by_path add_first
lookup-by_path key [] m h = sym (or_else-none (lookup key m))
lookup-by_path key (d ∷ ds) m h = elim (Bool-cases (is_empty (normalize_disk_path d.disk_path))) [
  | inl e ↦
      let other : text_eq (normalize_disk_path d.disk_path) key ≡ false =
        ne_of_empty (normalize_disk_path d.disk_path) key e h in
      rw (e, other) (lookup-by_path key ds m h)
  | inr e ↦
      rw (e, by_path)
        (lookup-by_path key ds (add_first (normalize_disk_path d.disk_path) d m) h
          ∙ rw (lookup-put_unless _ key (normalize_disk_path d.disk_path) d m refl) (
              or_else_assoc (lookup key m) _ (first_disk key ds)
              ∙ ap (or_else (lookup key m)) (or_else-if _ d (first_disk key ds))))
]

select_source-by_path :
    (lease : List DiskUrl) (src : Text)
    → select_source (by_path lease []) src ≡ source_disk lease src
unfolding select_source lookup
select_source-by_path lease src = elim (Bool-cases (is_empty (source_key src))) [
  | inl e ↦ rw e refl
  | inr e ↦ rw e (lookup-by_path (source_key src) lease [] e)
]

select_sources-by_path :
    (lease : List DiskUrl) (srcs : List Text)
    → select_sources (by_path lease []) srcs ≡ source_disks lease srcs
unfolding select_sources
select_sources-by_path lease [] = refl
select_sources-by_path lease (src ∷ srcs) =
    rw (select_source-by_path lease src, select_sources-by_path lease srcs) refl

-- For sources that are given, `FilterDiskURLs` answers for each, in their order, the first disk of the
-- lease that has the source's path, both paths without a snapshot's number and the source's without
-- white space around it: and an error exactly where a source is blank or has no such disk.
pub filter_disk_urls-first :
    (lease : List DiskUrl) (src : Text) (srcs : List Text)
    → filter_disk_urls lease (src ∷ srcs) ≡ source_disks lease (src ∷ srcs)
unfolding filter_disk_urls
filter_disk_urls-first lease src srcs = select_sources-by_path lease (src ∷ srcs)

length-cons_disk :
    (o : Option DiskUrl) (rest : Option (List DiskUrl)) (out : List DiskUrl) (n : ℕ)
    → ((ds : List DiskUrl) → rest ≡ some ds → length ds ≡ n)
    → cons_disk o rest ≡ some out
    → length out ≡ suc n
length-cons_disk none rest out n h e = absurd cc
length-cons_disk (some d) none out n h e = absurd cc
length-cons_disk (some d) (some ds) out n h e =
    let same : d ∷ ds ≡ out = cc in rw (← same) (ap suc (h ds refl))

pub length-source_disks :
    (lease : List DiskUrl) (srcs : List Text) (out : List DiskUrl)
    → source_disks lease srcs ≡ some out
    → length out ≡ length srcs
length-source_disks lease [] out e = let same : [] ≡ out = cc in rw (← same) refl
length-source_disks lease (src ∷ srcs) out e =
    length-cons_disk (source_disk lease src) (source_disks lease srcs) out (length srcs)
      (length-source_disks lease srcs) e

module _ {ℓ} {A : Type ℓ} where
  pub take-append : (xs ys : List A) → take (length xs) (xs ++ ys) ≡ xs
  take-append [] ys = refl
  take-append (x ∷ xs) ys = ap (λ r. x ∷ r) (take-append xs ys)

  get_or-append :
      (xs : List A) (y : A) (ys : List A) (z : A) → get_or (xs ++ y ∷ ys) (length xs) z ≡ y
  get_or-append [] y ys z = refl
  get_or-append (x ∷ xs) y ys z = get_or-append xs y ys z

  -- The length of what stands in front.
  front : (xs ys : List A) (k : ℕ) → length ys ≡ k → length (xs ++ ys) - k ≡ length xs
  front xs ys k h = omega (arith, length-append xs ys)

  take-front :
      (xs ys : List A) (k : ℕ) → length ys ≡ k → take (length (xs ++ ys) - k) (xs ++ ys) ≡ xs
  take-front xs ys k h = rw (front xs ys k h) (take-append xs ys)

  drop-front :
      (xs ys : List A) (k : ℕ) → length ys ≡ k → drop (length (xs ++ ys) - k) (xs ++ ys) ≡ ys
  drop-front xs ys k h = rw (front xs ys k h) (drop-append xs ys)

pub has_suffix-append : (s p : Text) → has_suffix (s ++ p) p ≡ true
unfolding has_suffix
has_suffix-append s p =
    rw (drop-front s p (length p) refl, text_eq_refl p) (ground (arith, length-append s p))

is_delta-append :
    (stem digits : Text)
    → length digits ≡ 6
    → all_digits digits ≡ true
    → is_delta (stem ++ b'-' ∷ digits) ≡ true
unfolding is_delta is_six_digits
is_delta-append stem digits n h =
    let dash : get_or (stem ++ b'-' ∷ digits) (length (stem ++ b'-' ∷ digits) - 7) 0 ≡ b'-' =
      rw (front stem (b'-' ∷ digits) 7 (omega arith)) (get_or-append stem b'-' digits 0) in
    let six : drop (length (stem ++ b'-' ∷ digits) - 6) (stem ++ b'-' ∷ digits) ≡ digits =
      rw (← append_assoc stem (b'-' ∷ []) digits) (drop-front (stem ++ b'-' ∷ []) digits 6 n) in
    rw (dash, six, n, h) (ground (arith, length-append stem (b'-' ∷ digits)))

-- The path of a snapshot's file is read as that of its base: the dash and the six digits before the
-- suffix are left out.
pub normalize_disk_path-delta :
    (stem digits : Text)
    → length digits ≡ 6
    → all_digits digits ≡ true
    → normalize_disk_path ((stem ++ b'-' ∷ digits) ++ vmdk_suffix) ≡ stem ++ vmdk_suffix
unfolding normalize_disk_path
normalize_disk_path-delta stem digits n h =
    rw
      (
        has_suffix-append (stem ++ b'-' ∷ digits) vmdk_suffix,
        take-front (stem ++ b'-' ∷ digits) vmdk_suffix 5 refl,
        is_delta-append stem digits n h,
        take-front stem (b'-' ∷ digits) 7 (ap suc n),
      )
      refl
