-- ===== src/Tests/Machines.antt =====
-- A machine that remembers the paths that were made, and the builds of magefile.go on it.
use proxyreverse.Prelude.{
  ◌≡◌, ◌≢◌, refl, ap, subst, true, false, Option, none, some, List, [], ◌∷◌, Text, codes, arith,
  text_eq, text_eq_iff, lookup, All, contains, if◌then◌else◌, insert,
}
use proxyreverse.Go.Split.{split, join}
use proxyreverse.Go.Paths.{path_join, clean}
use proxyreverse.Build.Platforms.{
  Platform, Product, platforms_lookup, lookup_from, platform_bin, platform_dir, archive_dir,
  release_base, string_of, get_current_platform,
}
use proxyreverse.Build.Targets.{
  Machine, BuildError, run_all, release_bin_all, do_release_bin, do_release, make_builder,
  build_if_changed, run_jobs, wait_results, wait_from, archive_cmds, archive_job, binary, link_job,
}
use proxyreverse.Build.Targets.Fresh.{
  IsMachine, IsReleased, HasDir, IsFresh, release_bin_all-IsReleased,
}
use proxyreverse.Build.Targets.Archives.{IsArchiver, HasArchives, Exists, do_release-HasArchives}

abbrev made : Text → List Text → List Text
made path w = if contains path w then w else path ∷ w

abbrev without : Text → List Text → List Text
without path [] = []
without path (p ∷ w) = let rest = without path w in if text_eq p path then rest else p ∷ rest

abbrev machine : Machine
machine = record {
  World = List Text;
  Failure = Unit {0};
  is_not_exist = λ f. true;
  mkdir_all = λ dir w. (made dir w, none);
  target_path = λ path w. if contains path w then (false, none) else (true, none);
  go_build = λ os arch out src w. (made out w, none);
  stat = λ path w. if contains path w then none else some tt;
  remove = λ path w. (without path w, none);
  symlink = λ old path w. (made path w, none);
  archive = λ format dir name w. (made name w, none);
}

contains-made : (path : Text) (w : List Text) → contains path (made path w) ≡ true
unfolding contains
contains-made path w = ground (arith, text_eq_iff path path)

contains-made-other :
    (path other : Text) (w : List Text)
    → contains other w ≡ true
    → contains other (made path w) ≡ true
unfolding contains
contains-made-other path other w h = ground arith

contains-without :
    (path other : Text) (w : List Text)
    → path ≢ other
    → contains other w ≡ true
    → contains other (without path w) ≡ true
unfolding contains
contains-without path other [] ne h = h
contains-without path other (p ∷ w) ne h =
    ground (arith, text_eq_iff p path, text_eq_iff p other, contains-without path other w ne)

made-there : (path : Text) (w : List Text) → contains path w ≡ true → made path w ≡ w
made-there path w h = rw h refl

abbrev Has : Text → List Text → Type 0
Has path w = contains path w ≡ true

Has-HasDir : (path : Text) (w : List Text) → Has path w → HasDir machine path w
Has-HasDir path w h = ap (λ v. (v, none)) (made-there path w h)

HasDir-Has : (path : Text) (w : List Text) → HasDir machine path w → Has path w
HasDir-Has path w e = subst (Has path) (ap (λ r. r.0) e) (contains-made path w)

Has-IsFresh : (path : Text) (w : List Text) → Has path w → IsFresh machine path w
Has-IsFresh path w h = rw h refl

IsFresh-Has : (path : Text) (w : List Text) → IsFresh machine path w → Has path w
IsFresh-Has path w e = ground arith

Has-Exists : (path : Text) (w : List Text) → Has path w → Exists machine path w
Has-Exists path w h = rw h refl

Exists-Has : (path : Text) (w : List Text) → Exists machine path w → Has path w
Exists-Has path w e = ground arith

-- What a job makes is there, and what was there stays.
Has-made :
    (path : Text) (w w' : List Text)
    → Path (List Text × Option (BuildError (Unit {0}))) (made path w, none) (w', none)
    → Has path w'
Has-made path w w' e = subst (Has path) (ap (λ r. r.0) e) (contains-made path w)

Has-stays :
    (path other : Text) (w w' : List Text)
    → Path (List Text × Option (BuildError (Unit {0}))) (made path w, none) (w', none)
    → Has other w
    → Has other w'
Has-stays path other w w' e h =
    subst (Has other) (ap (λ r. r.0) e) (contains-made-other path other w h)

machine-IsMachine : IsMachine machine
machine-IsMachine = record {
  mkdir_makes = λ dir w w' e. Has-HasDir dir w' (Has-made dir w w' e);
  mkdir_keeps_dir = λ dir d w w' e h. Has-HasDir d w' (Has-stays dir d w w' e (HasDir-Has d w h));
  mkdir_keeps_fresh =
      λ dir path w w' e h. Has-IsFresh path w' (Has-stays dir path w w' e (IsFresh-Has path w h));
  build_makes = λ os arch out src w w' e. Has-IsFresh out w' (Has-made out w w' e);
  build_keeps_dir =
      λ os arch out src d w w' e h. Has-HasDir d w' (Has-stays out d w w' e (HasDir-Has d w h));
  build_keeps_fresh = λ os arch out src path w w' e h.
      Has-IsFresh path w' (Has-stays out path w w' e (IsFresh-Has path w h));
}

machine-IsArchiver : IsArchiver machine
machine-IsArchiver = record {
  remove_keeps = λ path other w ne h.
      Has-Exists other (without path w) (contains-without path other w ne (Exists-Has other w h));
  archive_makes = λ format dir name w w' e. Has-Exists name w' (Has-made name w w' e);
  archive_keeps = λ format dir name other w w' e h.
      Has-Exists other w' (Has-stays name other w w' e (Exists-Has other w h));
}

runs : Unit {0}
unfolding text_eq lookup split join path_join clean platforms_lookup lookup_from platform_bin
    platform_dir archive_dir release_base string_of get_current_platform run_all release_bin_all
    do_release_bin do_release make_builder build_if_changed run_jobs wait_results wait_from
    archive_cmds archive_job binary link_job insert contains
runs = tt

abbrev product : Product
product = record {
  product_name = codes "p";
  version_short = codes "v1";
  bin_dir = codes "/r/bin";
  release_dir = codes "/r/release";
}

abbrev cmds : List Text
cmds = codes "p" ∷ []

abbrev linux_arm : Text
linux_arm = codes "linux-arm"

-- The directory and the binary for one platform.
abbrev built : List Text
built = codes "/r/bin/p_v1_linux-arm/p" ∷ codes "/r/bin/p_v1_linux-arm" ∷ []

build_tests :
    (release_bin_all machine product (codes "cmd") cmds (linux_arm ∷ []) [] ≡ (built, none))
    × ((release_bin_all machine product (codes "cmd") cmds (codes "plan9-386" ∷ []) []).0 ≡ [])
unfolding runs
build_tests = (refl, refl)

release_bin_all-IsReleased_example :
    All
      (λ os_arch. IsReleased machine machine-IsMachine product (codes "cmd") cmds os_arch built)
      (linux_arm ∷ [])
    × (release_bin_all machine product (codes "cmd") cmds (linux_arm ∷ []) built ≡ (built, none))
release_bin_all-IsReleased_example =
    release_bin_all-IsReleased machine machine-IsMachine product (codes "cmd") cmds (linux_arm ∷ [])
      [] built (unfold runs in refl)

abbrev windows : Text
windows = codes "windows-amd64"

-- What the release for windows leaves.
abbrev released : List Text
released =
    codes "/r/release/p_v1_windows-amd64.tar.gz"
    ∷ codes "/r/release/p_v1_windows-amd64.zip"
    ∷ codes "/r/bin/p_v1_windows-amd64/p.exe"
    ∷ codes "/r/bin/p_v1_windows-amd64"
    ∷ []

do_release-HasArchives_example :
    (p : Platform) × (v : List Text) × (lookup windows platforms_lookup ≡ some p)
    × IsReleased machine machine-IsMachine product (codes "cmd") cmds windows v
    × (run_all machine (archive_cmds machine product (codes "cmd") p) v ≡ (released, none))
    × HasArchives machine machine-IsArchiver product (codes "cmd") p released
do_release-HasArchives_example =
    do_release-HasArchives machine machine-IsArchiver product (codes "cmd") machine-IsMachine cmds
      windows [] released (unfold runs in refl)
