-- ===== src/Tests/Queues.antt =====
-- The queue of jobs of magefile.go at small numbers.
use proxyreverse.Prelude.{ℕ, ◌≡◌, ◌+◌, ◌<◌, ◌⊎◌, refl, inl, [], ◌∷◌, arith}
use proxyreverse.Build.Queue.{Queue, total_held, Step, starts, Run, here, next, IsDone, runner_of}
use proxyreverse.Build.Queue.Limits.{work}
use proxyreverse.Build.Queue.Progress.{total_spare, queue_goes_on}
use proxyreverse.Build.Queue.Blocked.{queue_blocks, queue_deadlocks, many, fresh}

-- One goroutine with a group of two jobs.
abbrev pair : Queue
pair = record { runners = runner_of (2 ∷ []) ∷ []; resolving = 0 }

-- The same when the first job has started.
abbrev one_started : Queue
one_started = record { runners = record { groups = 1 ∷ []; held = 1 } ∷ []; resolving = 0 }

started-Run : (c : ℕ) → 0 < c → Run c pair 1 one_started
unfolding total_held
started-Run c h = next here (starts pair [] [] (runner_of (2 ∷ [])) 1 [] refl refl (omega arith))

queue_goes_on_example :
    (work pair ≡ 1 + work one_started) × (((t : Queue) × Step 2 one_started t) ⊎ IsDone one_started)
queue_goes_on_example =
    queue_goes_on 2 (2 ∷ []) pair 1 one_started (omega arith, tt)
      (unfold total_spare in omega arith) (started-Run 2 (omega arith))

queue_blocks_test : ¬ IsDone one_started
queue_blocks_test =
    queue_blocks 1 pair 1 one_started (unfold total_held in omega arith) (inl (inl (omega arith)))
      (started-Run 1 (omega arith))

queue_deadlocks_example :
    (s : Queue) × Run 2 (record { runners = many 2 (fresh 0 []); resolving = 0 }) 2 s
    × ((t : Queue) → ¬ Step 2 s t)
    × ¬ IsDone s
queue_deadlocks_example = queue_deadlocks 0 [] 2 (omega arith)
