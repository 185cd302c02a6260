-- ===== src/Build/Platforms.antt =====
-- The platforms of magefile.go, the directories and archives of each, and the map by their prints.
use proxyreverse.Prelude.{
  ◌≡◌, refl, sym, ap, ◌∙◌, true, ◌&&◌, inl, inr, Option, none, some, List, [], ◌∷◌, ◌++◌, map, Text,
  codes, text_eq, text_eq_iff, if◌then◌else◌, Assoc, lookup, insert, All, Among, arith, Bool-cases,
  subst,
}
use proxyreverse.Go.Paths.{path_join}

pub record Platform : Type 0 where
  pub os : Text
  pub arch : Text
  pub bin_suffix : Text

-- `String`
unfoldable pub string_of : Platform → Text
string_of p = p.os ++ (codes "-" ++ p.arch)

-- The name and version that stand in the paths, and the directories of the output.
pub record Product : Type 0 where
  pub product_name : Text
  pub version_short : Text
  pub bin_dir : Text
  pub release_dir : Text

module _ (product : Product) where
  unfoldable pub archive_dir : Platform → Text
  archive_dir p =
      product.product_name ++ (codes "_" ++ (product.version_short ++ (codes "_" ++ string_of p)))

  unfoldable pub platform_dir : Platform → Text
  platform_dir p = path_join (product.bin_dir ∷ archive_dir p ∷ [])

  unfoldable pub platform_bin : Platform → Text → Text
  platform_bin p cmd = path_join (platform_dir p ∷ (cmd ++ p.bin_suffix) ∷ [])

  unfoldable pub release_base : Platform → Text
  release_base p = path_join (product.release_dir ∷ archive_dir p ∷ [])

abbrev platform_of : Text → Text → Text → Platform
platform_of os arch bin_suffix = record { os = os; arch = arch; bin_suffix = bin_suffix }

abbrev pub platforms : List Platform
platforms =
    platform_of (codes "linux") (codes "arm") []
    ∷ platform_of (codes "linux") (codes "arm64") []
    ∷ platform_of (codes "linux") (codes "amd64") []
    ∷ platform_of (codes "linux") (codes "386") []
    ∷ platform_of (codes "darwin") (codes "amd64") []
    ∷ platform_of (codes "darwin") (codes "arm64") []
    ∷ platform_of (codes "windows") (codes "amd64") (codes ".exe")
    ∷ platform_of (codes "windows") (codes "386") (codes ".exe")
    ∷ platform_of (codes "freebsd") (codes "amd64") []
    ∷ []

-- A list of platforms added to a map by their prints.
unfoldable pub lookup_from : Assoc Platform → List Platform → Assoc Platform
lookup_from m [] = m
lookup_from m (p ∷ ps) = lookup_from (insert (string_of p) p m) ps

unfoldable pub platforms_lookup : Assoc Platform
unfolding lookup_from
platforms_lookup = lookup_from [] platforms

-- `getCurrentPlatform`: the last of the platforms for the system and processor.
unfoldable pub current_from : Text → Text → Option Platform → List Platform → Option Platform
current_from goos goarch found [] = found
current_from goos goarch found (p ∷ ps) =
    let rest = current_from goos goarch found ps in
    let match = current_from goos goarch (some p) ps in
    if text_eq p.os goos && text_eq p.arch goarch then match else rest

unfoldable pub get_current_platform : Text → Text → Option Platform
unfolding current_from
get_current_platform goos goarch = current_from goos goarch none platforms

-- The texts that `GithubReleaseMatrix` marshals.
unfoldable pub release_matrix : List Text
release_matrix = map string_of platforms

-- A platform that the map gives for its print.
abbrev IsListed : Platform → Type 0
IsListed p = lookup (string_of p) platforms_lookup ≡ some p

platforms-IsListed : All IsListed platforms
unfolding platforms_lookup lookup_from insert lookup string_of text_eq
platforms-IsListed = (refl, (refl, (refl, (refl, (refl, (refl, (refl, (refl, (refl, tt)))))))))

abbrev IsFor : Text → Text → Platform → Type 0
IsFor goos goarch p = (p.os ≡ goos) × (p.arch ≡ goarch)

-- What is found beforehand or in the list is what is found.
abbrev IsFound : Text → Text → Option Platform → Type 0
IsFound goos goarch none = Unit
IsFound goos goarch (some p) = IsListed p × IsFor goos goarch p

current_from-IsFound :
    (goos goarch : Text) (found : Option Platform) (ps : List Platform)
    → All IsListed ps
    → IsFound goos goarch found
    → IsFound goos goarch (current_from goos goarch found ps)
unfolding current_from
current_from-IsFound goos goarch found [] h k = k
current_from-IsFound goos goarch found (p ∷ ps) (listed, h) k =
    elim (Bool-cases (text_eq p.os goos && text_eq p.arch goarch)) [
      | inl e ↦ rw e (
          current_from-IsFound goos goarch (some p) ps h (
            listed,
            (
              (text_eq_iff p.os goos).0 (ground arith),
              (text_eq_iff p.arch goarch).0 (ground arith),
            ),
          ))
      | inr e ↦ rw e (current_from-IsFound goos goarch found ps h k)
    ]

current_from-some :
    (goos goarch : Text) (q : Platform) (ps : List Platform)
    → (p : Platform) × (current_from goos goarch (some q) ps ≡ some p)
unfolding current_from
current_from-some goos goarch q [] = (q, refl)
current_from-some goos goarch q (p ∷ ps) =
    elim (Bool-cases (text_eq p.os goos && text_eq p.arch goarch)) [
      | inl e ↦ rw e (current_from-some goos goarch p ps)
      | inr e ↦ rw e (current_from-some goos goarch q ps)
    ]

-- A platform of the list that fits is enough for one to be found.
current_from-Among :
    (goos goarch : Text) (found : Option Platform) (ps : List Platform) (p : Platform)
    → Among p ps
    → IsFor goos goarch p
    → (q : Platform) × (current_from goos goarch found ps ≡ some q)
unfolding current_from
current_from-Among goos goarch found [] p h k = absurd h
current_from-Among goos goarch found (p' ∷ ps) p (inl e) k =
    let os : text_eq p'.os goos ≡ true =
      (text_eq_iff p'.os goos).1 (ap (λ q. q.os) (sym e) ∙ k.0) in
    let arch : text_eq p'.arch goarch ≡ true =
      (text_eq_iff p'.arch goarch).1 (ap (λ q. q.arch) (sym e) ∙ k.1) in
    rw (os, arch) (current_from-some goos goarch p' ps)
current_from-Among goos goarch found (p' ∷ ps) p (inr h) k =
    elim (Bool-cases (text_eq p'.os goos && text_eq p'.arch goarch)) [
      | inl e ↦ rw e (current_from-Among goos goarch (some p') ps p h k)
      | inr e ↦ rw e (current_from-Among goos goarch found ps p h k)
    ]

-- On the system and the processor of a listed platform, the current platform is found, it is for
-- that system and that processor, and the release of its print is one of a platform that the map
-- gives: itself.
get_current_platform-supported :
    (p : Platform)
    → Among p platforms
    → (q : Platform) × (get_current_platform p.os p.arch ≡ some q)
      × (q.os ≡ p.os)
      × (q.arch ≡ p.arch)
      × (lookup (string_of q) platforms_lookup ≡ some q)
unfolding get_current_platform
get_current_platform-supported p h =
    let (q, e) = current_from-Among p.os p.arch none platforms p h (refl, refl) in
    let (listed, (os, arch)) =
      subst (IsFound p.os p.arch) e
        (current_from-IsFound p.os p.arch none platforms platforms-IsListed tt) in
    (q, e, os, arch, listed)
