-- ===== src/Build/Queue/Blocked.antt =====
-- When the queue of magefile.go blocks.
use proxyreverse.Prelude.{
  ℕ, zero, suc, ◌+◌, ◌*◌, ◌≤◌, ◌<◌, ◌≡◌, ◌∙◌, ◌⊎◌, inl, inr, ap, sym, refl, subst, List, [], ◌∷◌,
  ◌++◌, arith,
}
use mathlib.Core.List.{append-nil}
use proxyreverse.Build.Queue.{
  Runner, Queue, total_held, in_use, Step, starts, waits, resolves, Run, here, next, AreFinished,
  IsDone, runner_of,
}
use proxyreverse.Build.Queue.Limits.{Run-bounded, total_held-at, total_held-append}

-- A goroutine has a group with more jobs than the queue has places: the current one, with the jobs
-- that it has started, or a later one.
abbrev pub HasLarge : ℕ → List ℕ → Type 0
HasLarge c [] = ⊥
HasLarge c (n ∷ groups) = (c < n) ⊎ HasLarge c groups

abbrev pub IsBlocked : ℕ → List ℕ → ℕ → Type 0
IsBlocked c [] held = ⊥
IsBlocked c (n ∷ groups) held = (c < n + held) ⊎ HasLarge c groups

abbrev pub AnyBlocked : ℕ → List Runner → Type 0
AnyBlocked c [] = ⊥
AnyBlocked c (r ∷ runners) = IsBlocked c r.groups r.held ⊎ AnyBlocked c runners

AnyBlocked-at :
    (c : ℕ) (pre post : List Runner) (r r' : Runner)
    → (IsBlocked c r.groups r.held → IsBlocked c r'.groups r'.held)
    → AnyBlocked c (pre ++ (r ∷ post))
    → AnyBlocked c (pre ++ (r' ∷ post))
AnyBlocked-at c [] post r r' f (inl b) = inl (f b)
AnyBlocked-at c [] post r r' f (inr b) = inr b
AnyBlocked-at c (p ∷ pre) post r r' f (inl b) = inl b
AnyBlocked-at c (p ∷ pre) post r r' f (inr b) = inr (AnyBlocked-at c pre post r r' f b)

IsBlocked-starts :
    (c n held : ℕ) (groups : List ℕ)
    → IsBlocked c (suc n ∷ groups) held
    → IsBlocked c (n ∷ groups) (suc held)
IsBlocked-starts c n held groups (inl more) = inl (omega arith)
IsBlocked-starts c n held groups (inr later) = inr later

HasLarge-IsBlocked : (c : ℕ) (groups : List ℕ) → HasLarge c groups → IsBlocked c groups 0
HasLarge-IsBlocked c [] h = absurd h
HasLarge-IsBlocked c (n ∷ groups) (inl more) = inl (omega arith)
HasLarge-IsBlocked c (n ∷ groups) (inr later) = inr later

IsBlocked-waits :
    (c held : ℕ) (groups : List ℕ)
    → held ≤ c
    → IsBlocked c (zero ∷ groups) held
    → IsBlocked c groups 0
IsBlocked-waits c held groups le (inl more) = absurd (omega arith)
IsBlocked-waits c held groups le (inr later) = HasLarge-IsBlocked c groups later

Step-AnyBlocked :
    {c : ℕ} {q s : Queue}
    → Step c q s
    → in_use q ≤ c
    → AnyBlocked c q.runners
    → AnyBlocked c s.runners
Step-AnyBlocked {c} (starts q pre post r n groups at e free) le b =
    AnyBlocked-at c pre post r (record { groups = n ∷ groups; held = suc r.held })
      (λ h. IsBlocked-starts c n r.held groups (subst (λ g. IsBlocked c g r.held) e h))
      (subst (AnyBlocked c) at b)
Step-AnyBlocked {c} (waits q pre post r groups at e) le b =
    let few : r.held ≤ c = omega (arith, le, total_held-at pre post r, ap total_held at) in
    AnyBlocked-at c pre post r (record { groups = groups; held = 0 })
      (λ h. IsBlocked-waits c r.held groups few (subst (λ g. IsBlocked c g r.held) e h))
      (subst (AnyBlocked c) at b)
Step-AnyBlocked (resolves q n e) le b = b

Run-AnyBlocked :
    {c : ℕ} {q : Queue} {n : ℕ} {s : Queue}
    → Run c q n s
    → in_use q ≤ c
    → AnyBlocked c q.runners
    → AnyBlocked c s.runners
Run-AnyBlocked here le b = b
Run-AnyBlocked (next run step) le b =
    Step-AnyBlocked step (Run-bounded run le) (Run-AnyBlocked run le b)

not_finished : (c : ℕ) (runners : List Runner) → AnyBlocked c runners → ¬ AreFinished runners
not_finished c [] b f = absurd b
not_finished c (r ∷ runners) (inl b) (e, f) = absurd (subst (λ g. IsBlocked c g r.held) e b)
not_finished c (r ∷ runners) (inr b) (e, f) = not_finished c runners b f

-- A goroutine that has a group of more jobs than the queue has places never comes to the end of its
-- groups, whatever steps are taken: the jobs that it has started hold all places while it still has
-- one to start.
pub queue_blocks :
    (c : ℕ) (q : Queue) (n : ℕ) (s : Queue)
    → in_use q ≤ c
    → AnyBlocked c q.runners
    → Run c q n s
    → ¬ IsDone s
queue_blocks c q n s le b run done = not_finished c s.runners (Run-AnyBlocked run le b) done.0

-- As many goroutines as given, alike.
unfoldable pub many : ℕ → Runner → List Runner
many zero r = []
many (suc k) r = r ∷ many k r

many-snoc :
    (k : ℕ) (r : Runner) (rest : List Runner) → many k r ++ (r ∷ rest) ≡ many (suc k) r ++ rest
unfolding many
many-snoc zero r rest = refl
many-snoc (suc k) r rest = ap (λ l. r ∷ l) (many-snoc k r rest)

total_held-many : (k : ℕ) (r : Runner) → total_held (many k r) ≡ k * r.held
unfolding many total_held
total_held-many zero r = omega arith
total_held-many (suc k) r = omega (arith, total_held-many k r)

many-at : (k : ℕ) (r p : Runner) (pre post : List Runner) → many k r ≡ pre ++ (p ∷ post) → p ≡ r
unfolding many
many-at zero r p [] post e = absurd (ground arith)
many-at zero r p (x ∷ pre) post e = absurd (ground arith)
many-at (suc k) r p [] post e = cc
many-at (suc k) r p (x ∷ pre) post e = many-at k r p pre post (cc)

module _ (n : ℕ) (groups : List ℕ) where
  -- A goroutine with two jobs or more in its group, and one that has started the first.
  abbrev pub fresh : Runner
  fresh = runner_of (suc (suc n) ∷ groups)

  abbrev pub holding : Runner
  holding = record { groups = suc n ∷ groups; held = 1 }

  start_each :
      (c i j : ℕ)
      → i + j ≡ c
      → Run c
          (record { runners = many c fresh; resolving = 0 })
          i
          (record { runners = many i holding ++ many j fresh; resolving = 0 })
  unfolding many
  start_each c zero j e = let same : j ≡ c = omega arith in rw same here
  start_each c (suc i) j e =
      let free : total_held (many i holding ++ many (suc j) fresh) + 0 < c = omega (
        arith,
        e,
        total_held-append (many i holding) (many (suc j) fresh),
        total_held-many i holding,
        total_held-many (suc j) fresh,
      ) in
      subst
        (λ l.
          Run c (record { runners = many c fresh; resolving = 0 }) (suc i)
            (record { runners = l; resolving = 0 }))
        (many-snoc i holding (many j fresh))
        (next (start_each c i (suc j) (omega arith))
          (starts _ (many i holding) (many j fresh) fresh (suc n) groups refl refl free))

  no-Step : {c : ℕ} {s t : Queue} → Step c s t → s.runners ≡ many c holding → s.resolving ≡ 0 → ⊥
  no-Step {c} (starts q pre post r m gs at e free) all none_left =
      absurd (omega (arith, free, ap total_held all, total_held-many c holding))
  no-Step {c} (waits q pre post r gs at e) all none_left =
      let same : r ≡ holding = many-at c holding r pre post (sym all ∙ at) in
      absurd (ground (arith, same, e))
  no-Step {c} (resolves q m e) all none_left = absurd (omega arith)

  unfinished : (c : ℕ) (rest : List Runner) → 0 < c → ¬ AreFinished (many c holding ++ rest)
  unfolding many
  unfinished zero rest h f = absurd (omega arith)
  unfinished (suc c) rest h f = absurd (ground (arith, f.0))

  -- As many goroutines as the queue has places, each with a group of two jobs or more, can come to
  -- a state in which none of them can take a step: each has started one job, and the results of none
  -- are read.
  pub queue_deadlocks :
      (c : ℕ)
      → 0 < c
      → (s : Queue) × Run c (record { runners = many c fresh; resolving = 0 }) c s
        × ((t : Queue) → ¬ Step c s t)
        × ¬ IsDone s
  unfolding many
  queue_deadlocks c some_place =
      let all : many c holding ++ many 0 fresh ≡ many c holding = append-nil (many c holding) in
      (
        record { runners = many c holding ++ many 0 fresh; resolving = 0 },
        start_each c c 0 (omega arith),
        (λ t step. no-Step step all refl),
        (λ done. unfinished c (many 0 fresh) some_place done.0),
      )
