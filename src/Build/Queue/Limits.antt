-- ===== src/Build/Queue/Limits.antt =====
-- The places of the queue of magefile.go, and the work that is left.
use proxyreverse.Prelude.{
  ℕ, zero, suc, ◌+◌, ◌*◌, ◌≤◌, ◌≡◌, ◌∙◌, ap, refl, List, [], ◌∷◌, ◌++◌, arith,
}
use proxyreverse.Build.Queue.{
  Runner, Queue, total_held, in_use, Step, starts, waits, resolves, Run, here, next,
}

pub total_held-append :
    (pre post : List Runner) → total_held (pre ++ post) ≡ total_held pre + total_held post
unfolding total_held
total_held-append [] post = omega arith
total_held-append (r ∷ pre) post = omega (arith, total_held-append pre post)

-- The places that a goroutine's jobs take among those of the others.
pub total_held-at :
    (pre post : List Runner) (r : Runner)
    → total_held (pre ++ (r ∷ post)) ≡ total_held pre + (r.held + total_held post)
total_held-at pre post r = total_held-append pre (r ∷ post) ∙ (unfold total_held in refl)

Step-bounded : {c : ℕ} {q s : Queue} → Step c q s → in_use q ≤ c → in_use s ≤ c
Step-bounded (starts q pre post r n groups at e free) h =
    let r' : Runner = record { groups = n ∷ groups; held = suc r.held } in
    omega (arith, total_held-at pre post r, total_held-at pre post r', ap total_held at)
Step-bounded (waits q pre post r groups at e) h =
    let r' : Runner = record { groups = groups; held = 0 } in
    omega (arith, total_held-at pre post r, total_held-at pre post r', ap total_held at)
Step-bounded (resolves q n e) h = omega arith

-- However the goroutines take turns, no more places of the queue are taken than it has.
pub Run-bounded :
    {c : ℕ} {q : Queue} {n : ℕ} {s : Queue} → Run c q n s → in_use q ≤ c → in_use s ≤ c
Run-bounded here h = h
Run-bounded (next run step) h = Step-bounded step (Run-bounded run h)

-- Two for each job that is to be started, one for each that is started, and one for each group.
unfoldable pub group_work : List ℕ → ℕ
group_work [] = 0
group_work (n ∷ groups) = suc (2 * n + group_work groups)

unfoldable pub runner_work : List Runner → ℕ
runner_work [] = 0
runner_work (r ∷ runners) = group_work r.groups + r.held + runner_work runners

abbrev pub work : Queue → ℕ
work q = runner_work q.runners + q.resolving

runner_work-at :
    (pre post : List Runner) (r : Runner)
    → runner_work (pre ++ (r ∷ post))
      ≡ runner_work pre + (group_work r.groups + r.held + runner_work post)
unfolding runner_work
runner_work-at [] post r = omega arith
runner_work-at (p ∷ pre) post r = omega (arith, runner_work-at pre post r)

group_work-cons :
    (n : ℕ) (groups : List ℕ) → group_work (n ∷ groups) ≡ suc (2 * n + group_work groups)
unfolding group_work
group_work-cons n groups = refl

-- Each step does one piece of the work.
Step-work : {c : ℕ} {q s : Queue} → Step c q s → work q ≡ suc (work s)
Step-work (starts q pre post r n groups at e free) =
    let r' : Runner = record { groups = n ∷ groups; held = suc r.held } in
    omega (
      arith,
      runner_work-at pre post r,
      runner_work-at pre post r',
      ap runner_work at,
      ap group_work e,
      group_work-cons (suc n) groups,
      group_work-cons n groups,
    )
Step-work (waits q pre post r groups at e) =
    let r' : Runner = record { groups = groups; held = 0 } in
    omega (
      arith,
      runner_work-at pre post r,
      runner_work-at pre post r',
      ap runner_work at,
      ap group_work e,
      group_work-cons zero groups,
    )
Step-work (resolves q n e) = omega arith

pub Run-work : {c : ℕ} {q : Queue} {n : ℕ} {s : Queue} → Run c q n s → work q ≡ n + work s
Run-work here = omega arith
Run-work (next run step) = omega (arith, Run-work run, Step-work step)
