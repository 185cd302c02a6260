-- ===== src/Build/Queue.antt =====
-- `concurrentRun` and `waitResults` of magefile.go: the queue of jobs that the goroutines share.
pub mod Limits
pub mod Progress
pub mod Blocked
use proxyreverse.Prelude.{ℕ, zero, suc, ◌+◌, ◌<◌, ◌≡◌, List, [], ◌∷◌, ◌++◌}

-- A goroutine that runs groups of jobs: how many jobs of each group it has still to start, the
-- current group first, and how many jobs of the current group it has started. The jobs that it has
-- started hold their places in the queue, since their results are not read before the whole group
-- is started and `waitResults` is called for it. A goroutine that waits for the results before it
-- goes on is one that takes no step in the meantime.
pub record Runner : Type 0 where
  pub groups : List ℕ
  pub held : ℕ

-- The goroutines, and the jobs whose results `waitResults` reads. A job runs for some time, and
-- then its result is read and its place is free.
pub record Queue : Type 0 where
  pub runners : List Runner
  pub resolving : ℕ

unfoldable pub total_held : List Runner → ℕ
total_held [] = 0
total_held (r ∷ runners) = r.held + total_held runners

-- The places of the queue that are taken.
abbrev pub in_use : Queue → ℕ
in_use q = total_held q.runners + q.resolving

-- A place is taken and the job started; a group is waited for; a result is read.
pub data Step (concurrency : ℕ) : Queue → Queue → Type 0 where
  starts :
      (q : Queue) (pre post : List Runner) (r : Runner) (n : ℕ) (groups : List ℕ)
      → q.runners ≡ pre ++ (r ∷ post)
      → r.groups ≡ suc n ∷ groups
      → in_use q < concurrency
      → Step concurrency q
          (record q { runners = pre ++ (record { groups = n ∷ groups; held = suc r.held } ∷ post) })
  waits :
      (q : Queue) (pre post : List Runner) (r : Runner) (groups : List ℕ)
      → q.runners ≡ pre ++ (r ∷ post)
      → r.groups ≡ zero ∷ groups
      → Step concurrency q (record {
        runners = pre ++ (record { groups = groups; held = 0 } ∷ post);
        resolving = q.resolving + r.held;
      })
  resolves :
      (q : Queue) (n : ℕ) → q.resolving ≡ suc n → Step concurrency q (record q { resolving = n })

-- A run of so many steps.
pub data Run (concurrency : ℕ) (q : Queue) : ℕ → Queue → Type 0 where
  here : Run concurrency q zero q
  next :
      {n : ℕ} {s t : Queue}
      → Run concurrency q n s
      → Step concurrency s t
      → Run concurrency q (suc n) t

-- All groups are waited for, and all results read.
abbrev pub AreFinished : List Runner → Type 0
AreFinished [] = Unit
AreFinished (r ∷ runners) = (r.groups ≡ []) × AreFinished runners

abbrev pub IsDone : Queue → Type 0
IsDone q = AreFinished q.runners × (q.resolving ≡ 0)

-- A goroutine that is to start its first group.
abbrev pub runner_of : List ℕ → Runner
runner_of groups = record { groups = groups; held = 0 }
