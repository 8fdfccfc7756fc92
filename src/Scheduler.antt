-- ===== src/Scheduler.antt =====
-- src/shared/workers/scheduler.ts: the cron scheduler of the workers. `runOnce` is cut where it
-- awaits: each event is what runs at one turn of the event loop, and any event that can come next
-- may. The handler of a worker and its clock are outside: a handler settles when it likes.
pub mod Runs
pub mod Drain
mod Tests
use emcp.Prelude.{
  ℕ, zero, suc, ◌+◌, ◌-◌, String, Bool, true, false, Option, none, some, List, [], ◌∷◌, ◌++◌, map,
  if◌then◌else◌, not, ◌||◌, ◌&&◌, ◌≡◌, ◌>>=◌,
}

pub data RunStatus : Type 0 where
  skipped_overlap success failure timeout : RunStatus

-- The schedule and its time zone are read by the cron library only.
pub record WorkerDefinition : Type 0 where
  pub name : String
  pub run_on_startup : Bool

-- The local variables of one run. `timer` is true while the timeout is armed, `timed_out` once
-- `timeoutCtl` has aborted, `raced` once the race is over, `concluded` once the run is counted.
pub record Run : Type 0 where
  pub started_at : ℕ
  pub handler_settled : Bool
  pub handler_success : Bool
  pub timer : Bool
  pub timed_out : Bool
  pub raced : Bool
  pub concluded : Bool

-- Besides the fields of the source: what the metrics have counted of the worker, newest first, the
-- number of calls of its handler, and of those the ones that run on although their run is over.
pub record WorkerState : Type 0 where
  pub def : WorkerDefinition
  pub in_flight : Bool
  pub running : Option Run
  pub runs_total : List RunStatus
  pub run_duration : List ℕ
  pub calls : ℕ
  pub late : ℕ

pub record Scheduler : Type 0 where
  pub stopped : Bool
  pub states : List WorkerState

abbrev pub new_run : ℕ → Run
new_run now = record {
  started_at = now;
  handler_settled = false;
  handler_success = false;
  timer = true;
  timed_out = false;
  raced = false;
  concluded = false;
}

unfoldable pub run_once : Bool → ℕ → WorkerState → WorkerState
run_once stopped now w =
    if stopped
    then w
    else if w.in_flight
    then record w { runs_total = skipped_overlap ∷ w.runs_total }
    else record w { in_flight = true; running = some (new_run now); calls = suc w.calls }

-- the callbacks of `handlerPromise`
unfoldable pub settle : Bool → Run → Option Run
settle fulfilled r =
    if r.handler_settled
    then none
    else some (record r { handler_settled = true; handler_success = fulfilled; raced = true })

-- the callback of `setTimeout`
unfoldable pub expire : Run → Option Run
expire r =
    if r.timer
    then some
        (record r { timer = false; timed_out = r.timed_out || not r.handler_settled; raced = true })
    else none

unfoldable pub status_of : Run → RunStatus
status_of r =
    if r.handler_settled then (if r.handler_success then success else failure) else timeout

-- from the end of the race to the end of the run
unfoldable pub conclude : ℕ → WorkerState → Run → Option WorkerState
conclude now w r =
    if r.raced && not r.concluded
    then some (record w {
      running = some (record r { timer = false; concluded = true });
      runs_total = status_of r ∷ w.runs_total;
      run_duration = (now - r.started_at) ∷ w.run_duration;
    })
    else none

-- the `finally` of the run; a handler that has not settled is left to itself
unfoldable pub finish : WorkerState → Run → Option WorkerState
finish w r =
    if r.concluded
    then some (record w {
      in_flight = false;
      running = none;
      late = if r.handler_settled then w.late else suc w.late;
    })
    else none

pub data Event : Type 0 where
  ticks : ℕ → Event
  settles : Bool → Event
  settles_late : Event
  expires : Event
  concludes : ℕ → Event
  finishes : Event

abbrev pub with_run : WorkerState → Option Run → Option WorkerState
with_run w none = none
with_run w (some r) = some (record w { running = some r })

abbrev pub late_settled : WorkerState → ℕ → Option WorkerState
late_settled w zero = none
late_settled w (suc n) = some (record w { late = n })

-- What an event makes of a worker, `none` if it cannot happen now.
abbrev pub on_run : WorkerState → Event → Run → Option WorkerState
on_run w (settles b) r = with_run w (settle b r)
on_run w expires r = with_run w (expire r)
on_run w (concludes now) r = conclude now w r
on_run w finishes r = finish w r
on_run w _ r = none

abbrev pub in_run : WorkerState → Event → Option Run → Option WorkerState
in_run w e none = none
in_run w e (some r) = on_run w e r

unfoldable pub handle : Bool → WorkerState → Event → Option WorkerState
handle stopped w (ticks now) = some (run_once stopped now w)
handle stopped w settles_late = late_settled w w.late
handle stopped w e = in_run w e w.running

abbrev pub new_state : WorkerDefinition → WorkerState
new_state d = record {
  def = d;
  in_flight = false;
  running = none;
  runs_total = [];
  run_duration = [];
  calls = 0;
  late = 0;
}

unfoldable pub start : Scheduler → ℕ → List WorkerDefinition → Scheduler
start c now workers = record c {
  states =
      map (λ w. if w.def.run_on_startup then run_once c.stopped now w else w)
        (c.states ++ map new_state workers);
}

unfoldable pub stop : Scheduler → Scheduler
stop c = record c { stopped = true }

-- `in_flight_remaining`, as `stop` logs it
unfoldable pub in_flight_remaining : List WorkerState → ℕ
in_flight_remaining [] = 0
in_flight_remaining (w ∷ ws) =
    if w.in_flight then suc (in_flight_remaining ws) else in_flight_remaining ws

-- an event of the worker at an index
unfoldable pub handle_at : Bool → ℕ → Event → List WorkerState → Option (List WorkerState)
handle_at stopped i e [] = none
handle_at stopped zero e (w ∷ ws) = do w' ← handle stopped w e; some (w' ∷ ws)
handle_at stopped (suc i) e (w ∷ ws) = do ws' ← handle_at stopped i e ws; some (w ∷ ws')

abbrev pub idle : Scheduler
idle = record { stopped = false; states = [] }

pub data Step (c : Scheduler) : Scheduler → Type 0 where
  starts : (now : ℕ) (workers : List WorkerDefinition) → Step c (start c now workers)
  stops : Step c (stop c)
  happens :
      (i : ℕ) (e : Event) {ws : List WorkerState}
      → handle_at c.stopped i e c.states ≡ some ws
      → Step c (record c { states = ws })

pub data Reach (c : Scheduler) : Scheduler → Type 0 where
  here : Reach c c
  later : {d e : Scheduler} → Reach c d → Step d e → Reach c e
