-- ===== src/Build/Targets/Fresh.antt =====
-- When the release binaries of magefile.go are built, and what a second run does.
use proxyreverse.Prelude.{
  ◌≡◌, refl, ap, Bool, true, false, Option, none, some, List, [], ◌∷◌, ◌++◌, Text, All, arith,
  lookup, codes, subst, Option-cases, inl, inr, Bool-cases, ◌⊎◌, All-imp,
}
use proxyreverse.Build.Platforms.{Platform, Product, platform_dir, platform_bin, platforms_lookup}
use proxyreverse.Build.Targets.{
  Machine, making_directory, Job, run_all, make_builder, build_if_changed, do_release_bin,
  release_bin_all, builders, failing,
}
use proxyreverse.Build.Targets.Jobs.{
  Achieves, Keeps, Rests, run_all-Keeps, run_all-Achieves, run_all-Rests,
}

-- A directory is there, and a file is there and not older than the sources.
abbrev pub HasDir : (m : Machine) → Text → m.World → Type 0
HasDir m dir w = m.mkdir_all dir w ≡ (w, none)

abbrev pub IsFresh : (m : Machine) → Text → m.World → Type 0
IsFresh m path w = m.target_path path w ≡ (false, none)

-- What is documented of `os.MkdirAll`, `target.Path` and `go build` when they succeed: they make a
-- directory and an output, and leave other directories and outputs as they are.
pub record IsMachine (m : Machine) : Type 0 where
  pub mkdir_makes : (dir : Text) → Achieves m (HasDir m dir) (λ w. failing m (m.mkdir_all dir w))
  pub mkdir_keeps_dir : (dir d : Text) → Keeps m (HasDir m d) (λ w. failing m (m.mkdir_all dir w))
  pub mkdir_keeps_fresh :
      (dir path : Text) → Keeps m (IsFresh m path) (λ w. failing m (m.mkdir_all dir w))
  pub build_makes :
      (os arch out src : Text)
      → Achieves m (IsFresh m out) (λ w. failing m (m.go_build os arch out src w))
  pub build_keeps_dir :
      (os arch out src d : Text)
      → Keeps m (HasDir m d) (λ w. failing m (m.go_build os arch out src w))
  pub build_keeps_fresh :
      (os arch out src path : Text)
      → Keeps m (IsFresh m path) (λ w. failing m (m.go_build os arch out src w))

module _ (m : Machine) (law : IsMachine m) (product : Product) (cmd_dir : Text) where
  -- The binary of a command for a platform is up to date.
  abbrev pub IsBuilt : Platform → Text → m.World → Type 0
  IsBuilt p cmd w = HasDir m (platform_dir product p) w × IsFresh m (platform_bin product p cmd) w

  -- What the making of directories and the builds keep.
  abbrev IsLasting : (m.World → Type 0) → Type 0
  IsLasting H =
      ((dir : Text) → Keeps m H (λ w. failing m (m.mkdir_all dir w)))
      × ((os arch out src : Text) → Keeps m H (λ w. failing m (m.go_build os arch out src w)))

  IsBuilt-IsLasting : (p : Platform) (cmd : Text) → IsLasting (IsBuilt p cmd)
  IsBuilt-IsLasting p cmd = (
    λ dir w w' e (d, f). (law.mkdir_keeps_dir dir _ w w' e d, law.mkdir_keeps_fresh dir _ w w' e f),
    λ os arch out src w w' e (d, f). (
      law.build_keeps_dir os arch out src _ w w' e d,
      law.build_keeps_fresh os arch out src _ w w' e f,
    ),
  )

  after_mkdir :
      (cmd : Text) (p : Platform) (r : m.World × Option m.Failure) (w' : m.World)
      → (elim r.1 [
        | some f ↦ (r.0, some (making_directory cmd f))
        | none ↦
            build_if_changed m product cmd_dir cmd p
              (m.target_path (platform_bin product p cmd) r.0)
              r.0
      ])
        ≡ (w', none)
      → (v : m.World) × (failing m r ≡ (v, none))
        × (build_if_changed m product cmd_dir cmd p (m.target_path (platform_bin product p cmd) v) v
            ≡ (w', none))
  after_mkdir cmd p (v, some f) w' h = absurd (ground arith)
  after_mkdir cmd p (v, none) w' h = (v, refl, h)

  -- A builder that succeeds has made its directory, and then found the binary fresh or built it.
  make_builder-steps :
      (cmd : Text) (p : Platform) (w w' : m.World)
      → make_builder m product cmd_dir cmd p w ≡ (w', none)
      → (v : m.World) × (failing m (m.mkdir_all (platform_dir product p) w) ≡ (v, none))
        × (build_if_changed m product cmd_dir cmd p (m.target_path (platform_bin product p cmd) v) v
            ≡ (w', none))
  unfolding make_builder
  make_builder-steps cmd p w w' h = after_mkdir cmd p (m.mkdir_all (platform_dir product p) w) w' h

  build_if_changed-steps :
      (cmd : Text) (p : Platform) (r : Bool × Option m.Failure) (w w' : m.World)
      → build_if_changed m product cmd_dir cmd p r w ≡ (w', none)
      → ((r ≡ (false, none)) × (w ≡ w'))
        ⊎ ((src : Text) × (failing m (m.go_build p.os p.arch (platform_bin product p cmd) src w)
              ≡ (w', none)))
  unfolding build_if_changed
  build_if_changed-steps cmd p (true, e) w w' h = inr (_, h)
  build_if_changed-steps cmd p (false, none) w w' h = inl (refl, ap (λ r. r.0) h)
  build_if_changed-steps cmd p (false, some f) w w' h = elim (Bool-cases (m.is_not_exist f)) [
    | inl e ↦ inr (codes "./" ++ (cmd_dir ++ (codes "/" ++ cmd)), ground arith)
    | inr e ↦ absurd (ground arith)
  ]

  make_builder-Keeps :
      (H : m.World → Type 0)
      → IsLasting H
      → (cmd : Text) (p : Platform) → Keeps m H (make_builder m product cmd_dir cmd p)
  make_builder-Keeps H (dirs, builds) cmd p w w' h k =
      let (v, made, built) = make_builder-steps cmd p w w' h in
      elim (build_if_changed-steps cmd p _ v w' built) [
        | inl (fresh, e) ↦ subst H e (dirs _ w v made k)
        | inr (src, e) ↦ builds _ _ _ src v w' e (dirs _ w v made k)
      ]

  make_builder-Achieves :
      (cmd : Text) (p : Platform)
      → Achieves m (IsBuilt p cmd) (make_builder m product cmd_dir cmd p)
  make_builder-Achieves cmd p w w' h =
      let (v, made, built) = make_builder-steps cmd p w w' h in
      let dir = law.mkdir_makes (platform_dir product p) w v made in
      elim (build_if_changed-steps cmd p _ v w' built) [
        | inl (fresh, e) ↦ subst (IsBuilt p cmd) e (dir, fresh)
        | inr (src, e) ↦
            (law.build_keeps_dir _ _ _ src _ v w' e dir, law.build_makes _ _ _ src v w' e)
      ]

  make_builder-Rests :
      (cmd : Text) (p : Platform) (w : m.World)
      → IsBuilt p cmd w
      → Rests m w (make_builder m product cmd_dir cmd p)
  unfolding make_builder build_if_changed
  make_builder-Rests cmd p w (dir, fresh) =
      rw (make_builder, dir, dir, fresh, build_if_changed) refl

  module _ (go_cmds : List Text) where
    -- All binaries of a platform are up to date, if it is a platform.
    abbrev pub IsReleased : Text → m.World → Type 0
    IsReleased os_arch w =
        (p : Platform) × (lookup os_arch platforms_lookup ≡ some p)
        × All (λ cmd. IsBuilt p cmd w) go_cmds

    builders-Keeps :
        (H : m.World → Type 0)
        → IsLasting H
        → (p : Platform) → Keeps m H (run_all m (builders m product cmd_dir go_cmds p))
    builders-Keeps H l p =
        run_all-Keeps m (λ cmd. cmd) (λ cmd. make_builder m product cmd_dir cmd p) H
          (λ cmd. make_builder-Keeps H l cmd p) go_cmds

    -- A release that succeeds is of a platform, and has run its builders.
    do_release_bin-steps :
        (os_arch : Text) (w w' : m.World)
        → do_release_bin m product cmd_dir go_cmds os_arch w ≡ (w', none)
        → (p : Platform) × (lookup os_arch platforms_lookup ≡ some p)
          × (run_all m (builders m product cmd_dir go_cmds p) w ≡ (w', none))
    unfolding do_release_bin
    do_release_bin-steps os_arch w w' h = elim (Option-cases (lookup os_arch platforms_lookup)) [
      | inl e ↦ absurd (ground arith)
      | inr (p, e) ↦ (p, e, ground arith)
    ]

    do_release_bin-Keeps :
        (H : m.World → Type 0)
        → IsLasting H
        → (os_arch : Text) → Keeps m H (do_release_bin m product cmd_dir go_cmds os_arch)
    do_release_bin-Keeps H l os_arch w w' h =
        let (p, e, run) = do_release_bin-steps os_arch w w' h in builders-Keeps H l p w w' run

    All-Keeps :
        {X : Type 0} (G : X → m.World → Type 0) (job : Job m)
        → ((x : X) → Keeps m (G x) job)
        → (xs : List X) → Keeps m (λ w. All (λ x. G x w) xs) job
    All-Keeps G job keeps [] w w' e h = tt
    All-Keeps G job keeps (x ∷ xs) w w' e (h, k) =
        (keeps x w w' e h, All-Keeps G job keeps xs w w' e k)

    IsReleased-Keeps :
        (os_arch other : Text)
        → Keeps m (IsReleased os_arch) (do_release_bin m product cmd_dir go_cmds other)
    IsReleased-Keeps os_arch other w w' h (p, e, built) = (
      p,
      e,
      All-Keeps (λ cmd. IsBuilt p cmd) (do_release_bin m product cmd_dir go_cmds other)
          (λ cmd. do_release_bin-Keeps (IsBuilt p cmd) (IsBuilt-IsLasting p cmd) other) go_cmds w w'
          h built,
    )

    pub do_release_bin-Achieves :
        (os_arch : Text)
        → Achieves m (IsReleased os_arch) (do_release_bin m product cmd_dir go_cmds os_arch)
    do_release_bin-Achieves os_arch w w' h =
        let (p, e, run) = do_release_bin-steps os_arch w w' h in
        (
          p,
          e,
          run_all-Achieves m (λ cmd. cmd) (λ cmd. make_builder m product cmd_dir cmd p)
              (λ cmd. IsBuilt p cmd) (λ cmd. make_builder-Achieves cmd p)
              (λ x y. make_builder-Keeps (IsBuilt p x) (IsBuilt-IsLasting p x) y p) go_cmds w w'
              run,
        )

    do_release_bin-Rests :
        (os_arch : Text) (w : m.World)
        → IsReleased os_arch w
        → Rests m w (do_release_bin m product cmd_dir go_cmds os_arch)
    unfolding do_release_bin
    do_release_bin-Rests os_arch w (p, e, built) =
        rw (do_release_bin, e)
          (run_all-Rests m (λ cmd. cmd) (λ cmd. make_builder m product cmd_dir cmd p) go_cmds w
            (All-imp _ _ (λ cmd. make_builder-Rests cmd p w) go_cmds built))

    -- Suppose that the operations of the machine do what is documented of them. When the building of
    -- the release binaries for some platforms, in any order, reports no error, then for each of them
    -- the binary of each command is there and not older than the sources, and to run it again
    -- changes nothing and reports no error either.
    pub release_bin_all-IsReleased :
        (keys : List Text) (w w' : m.World)
        → release_bin_all m product cmd_dir go_cmds keys w ≡ (w', none)
        → All (λ os_arch. IsReleased os_arch w') keys
          × (release_bin_all m product cmd_dir go_cmds keys w' ≡ (w', none))
    unfolding release_bin_all
    release_bin_all-IsReleased keys w w' h =
        let job = do_release_bin m product cmd_dir go_cmds in
        let name = λ (os_arch : Text). codes "build-" ++ os_arch in
        let all =
          run_all-Achieves m name job IsReleased do_release_bin-Achieves IsReleased-Keeps keys w w'
            h in
        (
          all,
          run_all-Rests m name job keys w'
              (All-imp _ _ (λ os_arch. do_release_bin-Rests os_arch w') keys all),
        )
