-- ===== src/Build/Targets/Archives.antt =====
-- What a release of magefile.go leaves behind.
use proxyreverse.Prelude.{
  ◌≡◌, ◌≢◌, refl, ap, Bool, false, ◌⊎◌, Option, none, some, List, [], ◌∷◌, ◌++◌, Text, codes,
  text_eq, arith, lookup, subst, Option-cases, inl, inr, Bool-cases, length, length-append,
  if◌then◌else◌,
}
use proxyreverse.Build.Platforms.{Platform, Product, release_base, platforms_lookup}
use proxyreverse.Build.Targets.{
  Machine, Format, zip, tar_gz, remove_old, BuildError, release_not_supported, Job, run_all,
  archive_job, archive_cmds, do_release_bin, do_release, failing,
}
use proxyreverse.Build.Targets.Jobs.{Keeps, Achieves, run_all-AllFine}
use proxyreverse.Build.Targets.Fresh.{IsMachine, IsReleased, do_release_bin-Achieves}

-- A file that `os.Stat` finds.
abbrev pub Exists : (m : Machine) → Text → m.World → Type 0
Exists m path w = m.stat path w ≡ none

-- What is documented of `os.Remove` and the archivers: another file is left as it is, and an
-- archive that was made without an error exists.
pub record IsArchiver (m : Machine) : Type 0 where
  pub remove_keeps :
      (path other : Text) (w : m.World)
      → path ≢ other
      → Exists m other w
      → Exists m other (m.remove path w).0
  pub archive_makes :
      (format : Format) (dir name : Text)
      → Achieves m (Exists m name) (λ w. failing m (m.archive format dir name w))
  pub archive_keeps :
      (format : Format) (dir name other : Text)
      → Keeps m (Exists m other) (λ w. failing m (m.archive format dir name w))

zip-ne-tar : (base : Text) → base ++ codes ".tar.gz" ≢ base ++ codes ".zip"
zip-ne-tar base e =
    let l = ap length e in
    absurd
      (omega (arith, l, length-append base (codes ".tar.gz"), length-append base (codes ".zip")))

module _ (m : Machine) (law : IsArchiver m) (product : Product) (cmd_dir : Text) where
  remove_old-Exists :
      (name other : Text) (w : m.World)
      → name ≢ other
      → Exists m other w
      → Exists m other (remove_old m product cmd_dir name w)
  remove_old-Exists name other w ne h = elim (Option-cases (m.stat name w)) [
    | inl there ↦ rw (remove_old, there) (law.remove_keeps name other w ne h)
    | inr (f, missing) ↦ rw (remove_old, missing) h
  ]

  archive_job-Keeps :
      (format : Format) (name other : Text) (p : Platform)
      → name ≢ other
      → Keeps m (Exists m other) (archive_job m product cmd_dir format name p)
  unfolding archive_job
  archive_job-Keeps format name other p ne w w' e h =
      law.archive_keeps format _ name other _ w' e (remove_old-Exists name other w ne h)

  archive_job-Achieves :
      (format : Format) (name : Text) (p : Platform)
      → Achieves m (Exists m name) (archive_job m product cmd_dir format name p)
  unfolding archive_job
  archive_job-Achieves format name p w w' e = law.archive_makes format _ name _ w' e

  -- The archives of a platform: for windows there are two.
  abbrev pub HasArchives : Platform → m.World → Type 0
  HasArchives p w =
      Exists m (release_base product p ++ codes ".tar.gz") w
      × ((text_eq p.os (codes "windows") ≡ false)
          ⊎ Exists m (release_base product p ++ codes ".zip") w)

  -- The name of an archive and its job.
  abbrev entry : Format → Text → Platform → Text × Job m
  entry format name p = (name, archive_job m product cmd_dir format name p)

  -- What the jobs do, when they succeed, for windows and for another system.
  archive_cmds-AllFine :
      (p : Platform) (w w' : m.World)
      → run_all m (archive_cmds m product cmd_dir p) w ≡ (w', none)
      → (v : m.World) × (archive_job m product cmd_dir tar_gz
            (release_base product p ++ codes ".tar.gz")
            p
            v
          ≡ (w', none))
        × ((text_eq p.os (codes "windows") ≡ false)
            ⊎ Exists m (release_base product p ++ codes ".zip") v)
  unfolding archive_cmds
  archive_cmds-AllFine p w w' e =
      let zip_name = release_base product p ++ codes ".zip" in
      let tar_name = release_base product p ++ codes ".tar.gz" in
      let tar = entry tar_gz tar_name p ∷ [] in
      let chosen = λ (b : Bool). if b then entry zip zip_name p ∷ tar else tar in
      elim (Bool-cases (text_eq p.os (codes "windows"))) [
        | inl is ↦
            let (v, zipped, (u, tarred, same)) =
              run_all-AllFine m (entry zip zip_name p ∷ tar) w w'
                (subst (λ b. run_all m (chosen b) w ≡ (w', none)) is e) in
            (
              v,
              subst (λ x. archive_job m product cmd_dir tar_gz tar_name p v ≡ (x, none)) same
                  tarred,
              inr (archive_job-Achieves zip zip_name p w v zipped),
            )
        | inr isnt ↦
            let (u, tarred, same) =
              run_all-AllFine m tar w w'
                (subst (λ b. run_all m (chosen b) w ≡ (w', none)) isnt e) in
            (
              w,
              subst (λ x. archive_job m product cmd_dir tar_gz tar_name p w ≡ (x, none)) same
                  tarred,
              inl isnt,
            )
      ]

  archive_cmds-Achieves :
      (p : Platform) → Achieves m (HasArchives p) (run_all m (archive_cmds m product cmd_dir p))
  archive_cmds-Achieves p w w' e =
      let (v, tarred, zipped) = archive_cmds-AllFine p w w' e in
      (
        archive_job-Achieves tar_gz _ p v w' tarred,
        elim zipped [
          | inl isnt ↦ inl isnt
          | inr there ↦ inr (
              archive_job-Keeps tar_gz _ _ p (zip-ne-tar (release_base product p)) v w' tarred
                there)
        ],
      )

  after_bin :
      (p : Platform) (r : m.World × Option (BuildError m.Failure)) (w' : m.World)
      → (elim r.1 [
        | some e ↦ (r.0, some e)
        | none ↦ run_all m (archive_cmds m product cmd_dir p) r.0
      ])
        ≡ (w', none)
      → (v : m.World) × (r ≡ (v, none))
        × (run_all m (archive_cmds m product cmd_dir p) v ≡ (w', none))
  after_bin p (v, some e) w' h = absurd (ground arith)
  after_bin p (v, none) w' h = (v, refl, h)

  do_release-steps :
      (go_cmds : List Text) (os_arch : Text) (w w' : m.World)
      → do_release m product cmd_dir go_cmds os_arch w ≡ (w', none)
      → (p : Platform) × (lookup os_arch platforms_lookup ≡ some p)
        × (v : m.World) × (do_release_bin m product cmd_dir go_cmds os_arch w ≡ (v, none))
        × (run_all m (archive_cmds m product cmd_dir p) v ≡ (w', none))
  unfolding do_release
  do_release-steps go_cmds os_arch w w' h =
      let r = do_release_bin m product cmd_dir go_cmds os_arch w in
      elim (Option-cases (lookup os_arch platforms_lookup)) [
        | inl e ↦ absurd (ground arith)
        | inr (p, e) ↦
            let chosen = λ (o : Option Platform).
              elim o as (λ (x : Option Platform). m.World × Option (BuildError m.Failure)) [
                | none ↦ (w, some (release_not_supported os_arch))
                | some q ↦ elim r.1 [
                  | some f ↦ (r.0, some f)
                  | none ↦ run_all m (archive_cmds m product cmd_dir q) r.0
                ]
              ] in
            let (v, bin, run) = after_bin p r w' (subst (λ o. chosen o ≡ (w', none)) e h) in
            (p, e, v, bin, run)
      ]

  -- Suppose that the operations of the machine do what is documented of them. A release that
  -- reports no error is of a platform, had the binaries of all commands for it up to date before
  -- the first archive was made, and leaves the archive there, and the zip file too for windows.
  pub do_release-HasArchives :
      (builds : IsMachine m) (go_cmds : List Text) (os_arch : Text) (w w' : m.World)
      → do_release m product cmd_dir go_cmds os_arch w ≡ (w', none)
      → (p : Platform) × (v : m.World) × (lookup os_arch platforms_lookup ≡ some p)
        × IsReleased m builds product cmd_dir go_cmds os_arch v
        × (run_all m (archive_cmds m product cmd_dir p) v ≡ (w', none))
        × HasArchives p w'
  do_release-HasArchives builds go_cmds os_arch w w' h =
      let (p, e, v, bin, run) = do_release-steps go_cmds os_arch w w' h in
      (
        p,
        v,
        e,
        do_release_bin-Achieves m builds product cmd_dir go_cmds os_arch w v bin,
        run,
        archive_cmds-Achieves p v w' run,
      )
