-- ===== src/Build/Targets.antt =====
-- The targets of magefile.go that build binaries and archives, on a machine whose state their
-- operations pass on. The jobs of a map run one after the other, in the order of a list.
pub mod Jobs
pub mod Fresh
pub mod Archives
use proxyreverse.Prelude.{
  Bool, true, false, Option, none, some, List, [], ◌∷◌, ◌++◌, map, Text, codes, text_eq,
  if◌then◌else◌, lookup,
}
use proxyreverse.Go.Paths.{path_join}
use proxyreverse.Build.Platforms.{
  Platform, Product, string_of, archive_dir, platform_dir, platform_bin, release_base,
  platforms_lookup, get_current_platform,
}

pub data Format : Type 0 where
  zip tar_gz : Format

-- What the targets use of the operating system, the Go tool and the packages of mage and archiver:
-- each operation says how the state changes, and whether it failed.
pub record Machine : Type 1 where
  pub World : Type 0
  pub Failure : Type 0
  pub is_not_exist : Failure → Bool
  pub mkdir_all : Text → World → World × Option Failure
  -- `target.Path(dst, goSrc...)`
  pub target_path : Text → World → Bool × Option Failure
  -- `go build` for a system and a processor, to an output, from a directory; its flags are fixed
  pub go_build : Text → Text → Text → Text → World → World × Option Failure
  pub stat : Text → World → Option Failure
  pub remove : Text → World → World × Option Failure
  pub symlink : Text → Text → World → World × Option Failure
  pub archive : Format → Text → Text → World → World × Option Failure

pub data BuildError (Failure : Type 0) : Type 0 where
  making_directory checking_for_changes : Text → Failure → BuildError Failure
  platform_not_supported : BuildError Failure
  release_not_supported : Text → BuildError Failure
  parallel_build_failed : BuildError Failure
  failed : Failure → BuildError Failure

-- `waitResults`, on the results in the order in which they arrive.
unfoldable pub wait_from : {E : Type 0} → Bool → List (Text × Option E) → Bool
wait_from build_error [] = build_error
wait_from build_error ((k, none) ∷ results) = wait_from build_error results
wait_from build_error ((k, some e) ∷ results) = wait_from true results

unfoldable pub wait_results : {E F : Type 0} → List (Text × Option E) → Option (BuildError F)
unfolding wait_from
wait_results results = if wait_from false results then some parallel_build_failed else none

module _ (m : Machine) where
  -- `func() error`
  abbrev pub Job : Type 0
  Job = m.World → m.World × Option (BuildError m.Failure)

  -- A result of the machine as one of a job.
  abbrev pub failing : m.World × Option m.Failure → m.World × Option (BuildError m.Failure)
  failing (w, none) = (w, none)
  failing (w, some f) = (w, some (failed f))

  unfoldable pub run_jobs :
      List (Text × Job) → m.World → m.World × List (Text × Option (BuildError m.Failure))
  run_jobs [] w = (w, [])
  run_jobs ((k, job) ∷ jobs) w =
      let (w', e) = job w in let (v, rest) = run_jobs jobs w' in (v, (k, e) ∷ rest)

  -- The jobs of a map, and then `waitResults`.
  unfoldable pub run_all : List (Text × Job) → Job
  unfolding run_jobs wait_results
  run_all jobs w = let (w', results) = run_jobs jobs w in (w', wait_results results)

  module _ (product : Product) (cmd_dir : Text) where
    abbrev go_build_of : Text → Platform → Job
    go_build_of cmd p w = failing (
        m.go_build p.os p.arch (platform_bin product p cmd)
          (codes "./" ++ (cmd_dir ++ (codes "/" ++ cmd))) w)

    unfoldable pub build_if_changed : Text → Platform → Bool × Option m.Failure → Job
    build_if_changed cmd p (true, e) w = go_build_of cmd p w
    build_if_changed cmd p (false, none) w = (w, none)
    build_if_changed cmd p (false, some f) w =
        if m.is_not_exist f then go_build_of cmd p w else (w, some (checking_for_changes cmd f))

    unfoldable pub make_builder : Text → Platform → Job
    unfolding build_if_changed
    make_builder cmd p w =
        let (w', made) = m.mkdir_all (platform_dir product p) w in
        elim made [
          | some f ↦ (w', some (making_directory cmd f))
          | none ↦ build_if_changed cmd p (m.target_path (platform_bin product p cmd) w') w'
        ]

    abbrev pub remove_old : Text → m.World → m.World
    remove_old name w = elim (m.stat name w) [ none ↦ (m.remove name w).0 | some f ↦ w ]

    unfoldable pub archive_job : Format → Text → Platform → Job
    archive_job format name p w = failing (
        m.archive format (path_join (product.bin_dir ∷ archive_dir product p ∷ [])) name
          (remove_old name w))

    unfoldable pub archive_cmds : Platform → List (Text × Job)
    unfolding archive_job
    archive_cmds p =
        let zip_name = release_base product p ++ codes ".zip" in
        let tar_name = release_base product p ++ codes ".tar.gz" in
        let tar = (tar_name, archive_job tar_gz tar_name p) ∷ [] in
        if text_eq p.os (codes "windows") then (zip_name, archive_job zip zip_name p) ∷ tar else tar

    module _ (go_cmds : List Text) where
      abbrev pub builders : Platform → List (Text × Job)
      builders p = map (λ cmd. (cmd, make_builder cmd p)) go_cmds

      -- `doReleaseBin` and `ReleaseBin`
      unfoldable pub do_release_bin : Text → Job
      unfolding make_builder run_all
      do_release_bin os_arch w = elim (lookup os_arch platforms_lookup) [
        | none ↦ (w, some (release_not_supported os_arch))
        | some p ↦ run_all (builders p) w
      ]

      -- The map's keys, in the order in which the loop visits them.
      unfoldable pub release_bin_all : List Text → Job
      unfolding do_release_bin run_all
      release_bin_all keys =
          run_all (map (λ os_arch. (codes "build-" ++ os_arch, do_release_bin os_arch)) keys)

      -- `doRelease` and `Release`
      unfoldable pub do_release : Text → Job
      unfolding do_release_bin archive_cmds run_all
      do_release os_arch w =
          let (w', built) = do_release_bin os_arch w in
          elim (lookup os_arch platforms_lookup) [
            | none ↦ (w, some (release_not_supported os_arch))
            | some p ↦ elim built [ some e ↦ (w', some e) | none ↦ run_all (archive_cmds p) w' ]
          ]

      unfoldable pub release_all : List Text → Job
      unfolding do_release run_all
      release_all keys =
          run_all (map (λ os_arch. (codes "release-" ++ os_arch, do_release os_arch)) keys)

      module _ (cur_dir : Text) where
        unfoldable pub link_job : Platform → Text → Job
        link_job p cmd w =
            let cmd_path = path_join (cur_dir ∷ cmd ∷ []) in
            failing (m.symlink (platform_bin product p cmd) cmd_path (m.remove cmd_path w).0)

        -- `Binary`, for the system and the processor that it runs on.
        unfoldable pub binary : Text → Text → Job
        unfolding do_release_bin link_job run_all
        binary goos goarch w = elim (get_current_platform goos goarch) [
          | none ↦ (w, some platform_not_supported)
          | some p ↦
              let (w', built) = do_release_bin (string_of p) w in
              elim built [
                | some e ↦ (w', some e)
                | none ↦ run_all (map (λ cmd. (cmd, link_job p cmd)) go_cmds) w'
              ]
        ]
