-- ===== src/Build/Targets/Jobs.antt =====
-- The jobs of a map of magefile.go, and what holds when all of them have succeeded.
use proxyreverse.Prelude.{
  ◌≡◌, refl, sym, ap, true, false, Option, none, some, List, [], ◌∷◌, Text, All, arith, map, subst,
}
use proxyreverse.Build.Targets.{
  Machine, BuildError, wait_from, wait_results, Job, run_jobs, run_all,
}

abbrev pub IsFine : {E : Type 0} → Text × Option E → Type 0
IsFine (k, e) = e ≡ none

wait_from-true : {E : Type 0} (results : List (Text × Option E)) → wait_from true results ≡ true
unfolding wait_from
wait_from-true [] = refl
wait_from-true ((k, none) ∷ results) = wait_from-true results
wait_from-true ((k, some e) ∷ results) = wait_from-true results

wait_from-IsFine :
    {E : Type 0} (results : List (Text × Option E))
    → wait_from false results ≡ false
    → All IsFine results
unfolding wait_from
wait_from-IsFine [] h = tt
wait_from-IsFine ((k, none) ∷ results) h = (refl, wait_from-IsFine results h)
wait_from-IsFine ((k, some e) ∷ results) h = absurd (ground (arith, wait_from-true results))

IsFine-wait_from :
    {E : Type 0} (results : List (Text × Option E))
    → All IsFine results
    → wait_from false results ≡ false
unfolding wait_from
IsFine-wait_from [] h = refl
IsFine-wait_from ((k, none) ∷ results) h = IsFine-wait_from results h.1
IsFine-wait_from ((k, some e) ∷ results) h = absurd (ground arith)

-- No error comes back exactly when no operation had one.
wait_results_iff :
    (E F : Type 0) (results : List (Text × Option E))
    → (wait_results {F = F} results ≡ none → All IsFine results)
      × (All IsFine results → wait_results {F = F} results ≡ none)
unfolding wait_results
wait_results_iff E F results =
    (λ h. wait_from-IsFine results (ground arith), λ h. ground (arith, IsFine-wait_from results h))

module _ (m : Machine) where
  -- A job that has succeeded leaves the state so.
  abbrev pub Achieves : (m.World → Type 0) → Job m → Type 0
  Achieves G job = (w w' : m.World) → job w ≡ (w', none) → G w'

  -- A job that succeeds keeps what holds.
  abbrev pub Keeps : (m.World → Type 0) → Job m → Type 0
  Keeps G job = (w w' : m.World) → job w ≡ (w', none) → G w → G w'

  -- A job that has nothing to do.
  abbrev pub Rests : m.World → Job m → Type 0
  Rests w job = job w ≡ (w, none)

  -- Every job in turn has succeeded.
  abbrev pub AllFine : List (Text × Job m) → m.World → m.World → Type 0
  AllFine [] w v = w ≡ v
  AllFine ((k, job) ∷ jobs) w v = (w' : m.World) × (job w ≡ (w', none)) × AllFine jobs w' v

  fine_run :
      (jobs : List (Text × Job m)) (w : m.World)
      → All IsFine (run_jobs m jobs w).1
      → AllFine jobs w (run_jobs m jobs w).0
  unfolding run_jobs
  fine_run [] w h = refl
  fine_run ((k, job) ∷ jobs) w h =
      ((job w).0, ap (λ e. ((job w).0, e)) h.0, fine_run jobs (job w).0 h.1)

  pub run_all-AllFine :
      (jobs : List (Text × Job m)) (w w' : m.World)
      → run_all m jobs w ≡ (w', none)
      → AllFine jobs w w'
  unfolding run_all
  run_all-AllFine jobs w w' e =
      let fine : All IsFine (run_jobs m jobs w).1 =
        (wait_results_iff _ _ (run_jobs m jobs w).1).0 (ap (λ r. r.1) e) in
      subst (AllFine jobs w) (ap (λ r. r.0) e) (fine_run jobs w fine)

  module _ {X : Type 0} (name : X → Text) (job : X → Job m) where
    abbrev jobs_of : List X → List (Text × Job m)
    jobs_of xs = map (λ x. (name x, job x)) xs

    AllFine-keeps :
        (H : m.World → Type 0)
        → ((x : X) → Keeps H (job x))
        → (xs : List X) (w w' : m.World) → AllFine (jobs_of xs) w w'
        → H w
        → H w'
    AllFine-keeps H keeps [] w w' e h = subst H e h
    AllFine-keeps H keeps (x ∷ xs) w w' (v, e, rest) h =
        AllFine-keeps H keeps xs v w' rest (keeps x w v e h)

    -- What every job keeps, all of them keep.
    pub run_all-Keeps :
        (H : m.World → Type 0)
        → ((x : X) → Keeps H (job x))
        → (xs : List X) → Keeps H (run_all m (jobs_of xs))
    run_all-Keeps H keeps xs w w' e =
        AllFine-keeps H keeps xs w w' (run_all-AllFine (jobs_of xs) w w' e)

    AllFine-achieves :
        (G : X → m.World → Type 0)
        → ((x : X) → Achieves (G x) (job x))
        → ((x y : X) → Keeps (G x) (job y))
        → (xs : List X) (w w' : m.World) → AllFine (jobs_of xs) w w'
        → All (λ x. G x w') xs
    AllFine-achieves G achieves keeps [] w w' e = tt
    AllFine-achieves G achieves keeps (x ∷ xs) w w' (v, e, rest) = (
      AllFine-keeps (G x) (keeps x) xs v w' rest (achieves x w v e),
      AllFine-achieves G achieves keeps xs v w' rest,
    )

    -- What each job achieves and every other keeps, holds of all when they have succeeded.
    pub run_all-Achieves :
        (G : X → m.World → Type 0)
        → ((x : X) → Achieves (G x) (job x))
        → ((x y : X) → Keeps (G x) (job y))
        → (xs : List X) → Achieves (λ w. All (λ x. G x w) xs) (run_all m (jobs_of xs))
    run_all-Achieves G achieves keeps xs w w' e =
        AllFine-achieves G achieves keeps xs w w' (run_all-AllFine (jobs_of xs) w w' e)

    run_jobs-Rests :
        (xs : List X) (w : m.World)
        → All (λ x. Rests w (job x)) xs
        → ((run_jobs m (jobs_of xs) w).0 ≡ w) × All IsFine (run_jobs m (jobs_of xs) w).1
    unfolding run_jobs
    run_jobs-Rests [] w h = (refl, tt)
    run_jobs-Rests (x ∷ xs) w (e, h) =
        let (same, fine) =
          subst
            (λ v. ((run_jobs m (jobs_of xs) v).0 ≡ w) × All IsFine (run_jobs m (jobs_of xs) v).1)
            (sym (ap (λ r. r.0) e)) (run_jobs-Rests xs w h) in
        (same, (ap (λ r. r.1) e, fine))

    -- Where no job has anything to do, all together have nothing to do.
    pub run_all-Rests :
        (xs : List X) (w : m.World)
        → All (λ x. Rests w (job x)) xs
        → Rests w (run_all m (jobs_of xs))
    unfolding run_all
    run_all-Rests xs w h =
        let (same, fine) = run_jobs-Rests xs w h in
        let quiet =
          (wait_results_iff (BuildError m.Failure) m.Failure (run_jobs m (jobs_of xs) w).1).1
            fine in
        cc (same, quiet)
