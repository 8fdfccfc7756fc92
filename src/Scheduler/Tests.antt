-- ===== src/Scheduler/Tests.antt =====
-- The scheduler of src/shared/workers/scheduler.ts on one worker: runs and witnesses.
use emcp.Prelude.{ℕ, ◌≤◌, ◌≡◌, refl, true, false, Option, none, some, List, [], ◌∷◌, arith, All}
use emcp.Scheduler.{
  RunStatus, skipped_overlap, failure, timeout, WorkerDefinition, WorkerState, Scheduler, new_run,
  run_once, settle, expire, status_of, conclude, finish, ticks, settles, expires, concludes,
  finishes, handle, start, stop, in_flight_remaining, handle_at, idle, starts, happens, Reach, here,
  later,
}
use emcp.Scheduler.Runs.{begun, timeouts, Kept, Reach-Kept}
use emcp.Scheduler.Drain.{total_calls, handle_all, Frees, way_out, stop-Reach, way_out-Frees}

abbrev feeds : WorkerDefinition
feeds = record { name = "fetch-news"; run_on_startup = true }

abbrev pending : WorkerState
pending = record {
  def = feeds;
  in_flight = true;
  running = some (new_run 5);
  runs_total = [];
  run_duration = [];
  calls = 1;
  late = 0;
}

abbrev timed_out : WorkerState
timed_out = record pending {
  running = some (record (new_run 5) { timer = false; timed_out = true; raced = true });
}

abbrev scheduled : Scheduler
scheduled = record { stopped = false; states = pending ∷ [] }

abbrev expired : Scheduler
expired = record { stopped = false; states = timed_out ∷ [] }

scheduled-Reach : Reach idle expired
unfolding start run_once handle_at handle expire
scheduled-Reach = later (later here (starts 5 (feeds ∷ []))) (happens 0 expires refl)

unfoldable outcome : Option WorkerState → List RunStatus × List ℕ × ℕ × ℕ
outcome none = ([], [], 0, 0)
outcome (some w) = (w.runs_total, w.run_duration, w.calls, w.late)

all_scheduler : Unit {0}
unfolding handle_all handle run_once settle expire status_of conclude finish outcome
all_scheduler = tt

-- a tick of a busy worker is skipped; a handler that rejects at the abort counts as a failure
all_scheduler_overlap :
    outcome
      (handle_all false pending (ticks 7 ∷ expires ∷ settles false ∷ concludes 9 ∷ finishes ∷ []))
    ≡ (failure ∷ skipped_overlap ∷ [], 4 ∷ [], 1, 0)
unfolding all_scheduler
all_scheduler_overlap = refl

-- a handler that ignores the abort runs on beside the next one
all_scheduler_late :
    outcome (handle_all false pending (expires ∷ concludes 9 ∷ finishes ∷ ticks 10 ∷ []))
    ≡ (timeout ∷ [], 4 ∷ [], 2, 1)
unfolding all_scheduler
all_scheduler_late = refl

Reach-Kept_example : All Kept expired.states
Reach-Kept_example = Reach-Kept scheduled-Reach

drains-Reach : Reach (stop scheduled) (record { stopped = true; states = timed_out ∷ [] })
unfolding stop handle_at handle expire
drains-Reach = later here (happens 0 expires refl)

stop-Reach_example :
    (true ≡ true)
    × (total_calls (timed_out ∷ []) ≡ total_calls (pending ∷ []))
    × (in_flight_remaining (timed_out ∷ []) ≤ in_flight_remaining (pending ∷ []))
stop-Reach_example = stop-Reach scheduled drains-Reach

pending-Kept : Kept pending
unfolding begun timeouts
pending-Kept = record {
  flag = refl;
  counted = refl;
  observed = refl;
  loose = omega arith;
  ends = refl;
}

way_out-Frees_example : Frees false 1 pending (way_out 9 (new_run 5))
way_out-Frees_example = way_out-Frees false pending (new_run 5) 9 pending-Kept refl
