-- ===== src/Build/Queue/Progress.antt =====
-- When the queue of magefile.go cannot block.
use proxyreverse.Prelude.{
  ℕ, zero, suc, ◌+◌, ◌-◌, ◌≤◌, ◌<◌, ◌≡◌, ◌⊎◌, inl, inr, ap, refl, subst, List, [], ◌∷◌, ◌++◌, arith,
}
use proxyreverse.Build.Queue.{
  Runner, Queue, total_held, Step, starts, waits, resolves, Run, here, next, AreFinished, IsDone,
}
use proxyreverse.Build.Queue.Limits.{work, Run-work}

-- A goroutine's groups have at most so many jobs, those that it has started in the current group
-- among them.
abbrev pub AreSmall : ℕ → List ℕ → Type 0
AreSmall limit [] = Unit
AreSmall limit (n ∷ groups) = (n ≤ limit) × AreSmall limit groups

abbrev pub IsWithin : ℕ → List ℕ → ℕ → Type 0
IsWithin limit [] held = held ≡ 0
IsWithin limit (n ∷ groups) held = (n + held ≤ limit) × AreSmall limit groups

abbrev pub AreWithin : List ℕ → List Runner → Type 0
AreWithin [] [] = Unit
AreWithin [] (r ∷ runners) = ⊥
AreWithin (limit ∷ limits) [] = ⊥
AreWithin (limit ∷ limits) (r ∷ runners) = IsWithin limit r.groups r.held × AreWithin limits runners

-- What the goroutines can hold while each has still a job to start.
unfoldable pub total_spare : List ℕ → ℕ
total_spare [] = 0
total_spare (limit ∷ limits) = (limit - 1) + total_spare limits

IsWithin-waits :
    (limit held : ℕ) (groups : List ℕ)
    → IsWithin limit (zero ∷ groups) held
    → IsWithin limit groups 0
IsWithin-waits limit held [] h = refl
IsWithin-waits limit held (n ∷ groups) (h, (k, small)) = (omega arith, small)

AreWithin-at :
    (limits : List ℕ) (pre post : List Runner) (r r' : Runner)
    → ((limit : ℕ) → IsWithin limit r.groups r.held → IsWithin limit r'.groups r'.held)
    → AreWithin limits (pre ++ (r ∷ post))
    → AreWithin limits (pre ++ (r' ∷ post))
AreWithin-at [] [] post r r' f w = w
AreWithin-at [] (p ∷ pre) post r r' f w = w
AreWithin-at (limit ∷ limits) [] post r r' f (h, w) = (f limit h, w)
AreWithin-at (limit ∷ limits) (p ∷ pre) post r r' f (h, w) =
    (h, AreWithin-at limits pre post r r' f w)

Step-AreWithin :
    {c : ℕ} {q s : Queue} (limits : List ℕ)
    → Step c q s
    → AreWithin limits q.runners
    → AreWithin limits s.runners
Step-AreWithin limits (starts q pre post r n groups at e free) w =
    AreWithin-at limits pre post r (record { groups = n ∷ groups; held = suc r.held })
      (λ limit h. let (k, small) = subst (λ g. IsWithin limit g r.held) e h in (omega arith, small))
      (subst (AreWithin limits) at w)
Step-AreWithin limits (waits q pre post r groups at e) w =
    AreWithin-at limits pre post r (record { groups = groups; held = 0 })
      (λ limit h. IsWithin-waits limit r.held groups (subst (λ g. IsWithin limit g r.held) e h))
      (subst (AreWithin limits) at w)
Step-AreWithin limits (resolves q n e) w = w

Run-AreWithin :
    {c : ℕ} {q : Queue} {n : ℕ} {s : Queue} (limits : List ℕ)
    → Run c q n s
    → AreWithin limits q.runners
    → AreWithin limits s.runners
Run-AreWithin limits here w = w
Run-AreWithin limits (next run step) w = Step-AreWithin limits step (Run-AreWithin limits run w)

-- A goroutine whose current group has a certain number of jobs to start.
abbrev HasNext : ℕ → List Runner → Type 0
HasNext n runners =
    (pre : List Runner) × (post : List Runner) × (r : Runner) × (groups : List ℕ) × (runners
      ≡ pre ++ (r ∷ post))
    × (r.groups ≡ n ∷ groups)

HasNext-cons :
    (n : ℕ) (p : Runner) (runners : List Runner) → HasNext n runners → HasNext n (p ∷ runners)
HasNext-cons n p runners (pre, post, r, groups, at, e) =
    (p ∷ pre, post, r, groups, ap (λ l. p ∷ l) at, e)

-- Some goroutine can wait for its group, or some has a job to start and all that are held are
-- spare, or all have finished.
abbrev Next : List ℕ → List Runner → Type 0
Next limits runners =
    HasNext zero runners
    ⊎ ((((n : ℕ) × HasNext (suc n) runners) ⊎ AreFinished runners)
        × (total_held runners ≤ total_spare limits))

Next-cons :
    (limit : ℕ) (limits : List ℕ) (r : Runner) (runners : List Runner) (groups : List ℕ)
    → r.groups ≡ groups
    → IsWithin limit groups r.held
    → Next limits runners
    → Next (limit ∷ limits) (r ∷ runners)
unfolding total_held total_spare
Next-cons limit limits r runners groups e h (inl ready) = inl (HasNext-cons zero r runners ready)
Next-cons limit limits r runners [] e h (inr (inl (n, more), le)) =
    inr (inl (n, HasNext-cons (suc n) r runners more), omega (arith, h, le))
Next-cons limit limits r runners [] e h (inr (inr done, le)) =
    inr (inr (e, done), omega (arith, h, le))
Next-cons limit limits r runners (zero ∷ groups) e h (inr rest) =
    inl ([], runners, r, groups, refl, e)
Next-cons limit limits r runners (suc n ∷ groups) e h (inr (rest, le)) =
    inr (inl (n, ([], runners, r, groups, refl, e)), omega (arith, h.0, le))

find-Next :
    (limits : List ℕ) (runners : List Runner) → AreWithin limits runners → Next limits runners
unfolding total_held total_spare
find-Next [] [] w = inr (inr tt, omega arith)
find-Next [] (r ∷ runners) w = absurd w
find-Next (limit ∷ limits) [] w = absurd w
find-Next (limit ∷ limits) (r ∷ runners) (h, w) =
    Next-cons limit limits r runners r.groups refl h (find-Next limits runners w)

go_on :
    (c : ℕ) (limits : List ℕ) (q : Queue)
    → AreWithin limits q.runners
    → total_spare limits < c
    → ((s : Queue) × Step c q s) ⊎ IsDone q
go_on c limits q w spare = next_step q.resolving refl (find-Next limits q.runners w)
  where
    next_step :
        (n : ℕ) → q.resolving ≡ n → Next limits q.runners → ((s : Queue) × Step c q s) ⊎ IsDone q
    next_step (suc n) e found = inl (_, resolves q n e)
    next_step zero e (inl (pre, post, r, groups, at, g)) = inl (_, waits q pre post r groups at g)
    next_step zero e (inr (inl (n, (pre, post, r, groups, at, g)), le)) =
        inl (_, starts q pre post r n groups at g (omega arith))
    next_step zero e (inr (inr done, le)) = inr (done, e)

-- Suppose that no group of a goroutine has more jobs than its limit, and that the queue has more
-- places than all the goroutines can hold while each has still a job to start. Then in whatever
-- order they take their steps, each step does one piece of the work, and either there is a next step,
-- or all jobs are started and all results read.
pub queue_goes_on :
    (c : ℕ) (limits : List ℕ) (q : Queue) (n : ℕ) (s : Queue)
    → AreWithin limits q.runners
    → total_spare limits < c
    → Run c q n s
    → (work q ≡ n + work s) × (((t : Queue) × Step c s t) ⊎ IsDone s)
queue_goes_on c limits q n s w spare run =
    (Run-work run, go_on c limits s (Run-AreWithin limits run w) spare)
