-- ===== src/Scheduler/Drain.antt =====
-- The end of runs in src/shared/workers/scheduler.ts: after `stop`, and by the timeout.
use emcp.Prelude.{
  ℕ, zero, suc, ◌+◌, ◌≤◌, ◌≡◌, refl, Bool, true, false, Option, none, some, List, [], ◌∷◌, ◌++◌,
  map, arith, if◌then◌else◌, not, ◌||◌, ◌&&◌, if_cases, Every, Every-some, Every-bind, if_true, ◌-◌,
  false≢true, ap, ◌∙◌, ◌>>=◌, sym, subst,
}
use emcp.Scheduler.{
  WorkerDefinition, Run, WorkerState, Scheduler, run_once, settle, expire, status_of, conclude,
  finish, Event, ticks, settles, settles_late, expires, concludes, finishes, with_run, late_settled,
  on_run, in_run, handle, new_state, start, stop, in_flight_remaining, handle_at, Step, starts,
  stops, happens, Reach, here, later,
}
use emcp.Scheduler.Runs.{Kept}

pub total_calls : List WorkerState → ℕ
total_calls [] = 0
total_calls (w ∷ ws) = w.calls + total_calls ws

-- no handler is called and no run begun
abbrev Quiet : WorkerState → WorkerState → Type 0
Quiet w w' = (w'.calls ≡ w.calls) × (w.in_flight ≡ false → w'.in_flight ≡ false)

on_run-Quiet : (w : WorkerState) (e : Event) (r : Run) → Every (Quiet w) (on_run w e r)
unfolding settle expire conclude finish
on_run-Quiet w (settles b) r =
    if_cases (λ o. Every (Quiet w) (with_run w o)) r.handler_settled (λ _. tt) (λ _. (refl, λ h. h))
on_run-Quiet w expires r =
    if_cases (λ o. Every (Quiet w) (with_run w o)) r.timer (λ _. (refl, λ h. h)) (λ _. tt)
on_run-Quiet w (concludes now) r =
    if_cases (Every (Quiet w)) (r.raced && not r.concluded) (λ _. (refl, λ h. h)) (λ _. tt)
on_run-Quiet w finishes r =
    if_cases (Every (Quiet w)) r.concluded (λ _. (refl, λ h. refl)) (λ _. tt)
on_run-Quiet w (ticks now) r = tt
on_run-Quiet w settles_late r = tt

in_run-Quiet : (w : WorkerState) (e : Event) (o : Option Run) → Every (Quiet w) (in_run w e o)
in_run-Quiet w e none = tt
in_run-Quiet w e (some r) = on_run-Quiet w e r

late-Quiet : (w : WorkerState) (n : ℕ) → Every (Quiet w) (late_settled w n)
late-Quiet w zero = tt
late-Quiet w (suc n) = (refl, λ h. h)

handle-Quiet : (w : WorkerState) (e : Event) → Every (Quiet w) (handle true w e)
unfolding handle run_once
handle-Quiet w (ticks now) = (refl, λ h. h)
handle-Quiet w settles_late = late-Quiet w w.late
handle-Quiet w (settles b) = in_run-Quiet w (settles b) w.running
handle-Quiet w expires = in_run-Quiet w expires w.running
handle-Quiet w (concludes now) = in_run-Quiet w (concludes now) w.running
handle-Quiet w finishes = in_run-Quiet w finishes w.running

abbrev Calmer : List WorkerState → List WorkerState → Type 0
Calmer ws ws' =
    (total_calls ws' ≡ total_calls ws) × (in_flight_remaining ws' ≤ in_flight_remaining ws)

handle_at-Calmer :
    (i : ℕ) (e : Event) (ws : List WorkerState) → Every (Calmer ws) (handle_at true i e ws)
unfolding handle_at total_calls in_flight_remaining
handle_at-Calmer i e [] = tt
handle_at-Calmer zero e (w ∷ ws) =
    Every-bind (Calmer (w ∷ ws)) (handle true w e) (λ w'. some (w' ∷ ws)) (handle-Quiet w e)
      (λ w' q. (omega (arith, q.0), ground (arith, q.1)))
handle_at-Calmer (suc i) e (w ∷ ws) =
    Every-bind (Calmer (w ∷ ws)) (handle_at true i e ws) (λ ws'. some (w ∷ ws'))
      (handle_at-Calmer i e ws) (λ ws' q. (omega (arith, q.0), ground (arith, q.1)))

new_states-Calmer :
    (ws : List WorkerState) (ds : List WorkerDefinition) → Calmer ws (ws ++ map new_state ds)
unfolding total_calls in_flight_remaining
new_states-Calmer [] [] = (refl, omega arith)
new_states-Calmer [] (d ∷ ds) =
    let (same, fewer) = new_states-Calmer [] ds in (omega (arith, same), omega (arith, fewer))
new_states-Calmer (w ∷ ws) ds =
    let (same, fewer) = new_states-Calmer ws ds in (omega (arith, same), ground (arith, fewer))

-- what `start` does to the states once the scheduler is stopped
startup-stopped :
    (b : Bool) (now : ℕ) (ws : List WorkerState)
    → b ≡ true
    → map (λ w. if w.def.run_on_startup then run_once b now w else w) ws ≡ ws
unfolding run_once
startup-stopped b now [] h = refl
startup-stopped b now (w ∷ ws) h = ground (arith, startup-stopped b now ws h)

handle_at-stopped :
    (b : Bool) (i : ℕ) (e : Event) (ws : List WorkerState)
    → b ≡ true
    → Every (Calmer ws) (handle_at b i e ws)
handle_at-stopped true i e ws h = handle_at-Calmer i e ws
handle_at-stopped false i e ws h = elim (false≢true h) [ ]

abbrev Stopped : List WorkerState → Scheduler → Type 0
Stopped ws d = (d.stopped ≡ true) × Calmer ws d.states

Calmer-trans : (us vs ws : List WorkerState) → Calmer us vs → Calmer vs ws → Calmer us ws
Calmer-trans us vs ws (same, fewer) (same', fewer') =
    (omega (arith, same, same'), omega (arith, fewer, fewer'))

Step-Stopped : (ws : List WorkerState) {c d : Scheduler} → Step c d → Stopped ws c → Stopped ws d
unfolding start stop
Step-Stopped ws {c} (starts now workers) (stopped, calm) =
    let added = c.states ++ map new_state workers in
    (
      stopped,
      subst (Calmer ws) (sym (startup-stopped c.stopped now added stopped))
          (Calmer-trans ws c.states added calm (new_states-Calmer c.states workers)),
    )
Step-Stopped ws stops (stopped, calm) = (refl, calm)
Step-Stopped ws {c} (happens i e {ws = vs} h) (stopped, calm) = (
  stopped,
  Calmer-trans ws c.states vs calm
      (Every-some (Calmer c.states) h (handle_at-stopped c.stopped i e c.states stopped)),
)

-- After `stop`, whatever else happens, a second `start` included, no handler is called again and
-- no more workers are in flight than when `stop` was called: once those have drained, none is.
pub stop-Reach :
    (c : Scheduler) {d : Scheduler}
    → Reach (stop c) d
    → (d.stopped ≡ true)
      × (total_calls d.states ≡ total_calls c.states)
      × (in_flight_remaining d.states ≤ in_flight_remaining c.states)
unfolding stop
stop-Reach c here = (refl, refl, omega arith)
stop-Reach c (later r s) =
    let (stopped, same, fewer) = stop-Reach c r in
    let (stopped', calm) = Step-Stopped c.states s (stopped, (same, fewer)) in
    (stopped', calm.0, calm.1)

-- a run of events of one worker
unfoldable pub handle_all : Bool → WorkerState → List Event → Option WorkerState
handle_all stopped w [] = some w
handle_all stopped w (e ∷ es) = do w' ← handle stopped w e; handle_all stopped w' es

-- what ends a run without its handler
abbrev pub way_out : ℕ → Run → List Event
way_out now r =
    if r.concluded
    then finishes ∷ []
    else if r.raced
    then concludes now ∷ finishes ∷ []
    else expires ∷ concludes now ∷ finishes ∷ []

-- the events can happen, and leave the worker free, its handler called `n` times so far
abbrev pub Frees : Bool → ℕ → WorkerState → List Event → Type 0
Frees stopped n w es =
    (w' : WorkerState) × (handle_all stopped w es ≡ some w')
    × (w'.in_flight ≡ false)
    × (w'.running ≡ none)
    × (w'.calls ≡ n)

after-Frees :
    (stopped : Bool) (n : ℕ) (w v : WorkerState) (e : Event) (es : List Event)
    → handle stopped w e ≡ some v
    → Frees stopped n v es
    → Frees stopped n w (e ∷ es)
unfolding handle_all
after-Frees stopped n w v e es h (x, p, idle, gone, same) =
    (x, ap (λ o. o >>= λ v'. handle_all stopped v' es) h ∙ p, idle, gone, same)

finishes-Frees :
    (stopped : Bool) (w : WorkerState) (r : Run)
    → w.running ≡ some r
    → r.concluded ≡ true
    → Frees stopped w.calls w (finishes ∷ [])
unfolding handle handle_all finish
finishes-Frees stopped w r e h =
    let free = record w {
      in_flight = false;
      running = none;
      late = if r.handler_settled then w.late else suc w.late;
    } in
    after-Frees stopped w.calls w free finishes [] (ap (in_run w finishes) e ∙ if_true _ h)
      (free, refl, refl, refl, refl)

concludes-Frees :
    (stopped : Bool) (w : WorkerState) (r : Run) (now : ℕ)
    → w.running ≡ some r
    → r.concluded ≡ false
    → r.raced ≡ true
    → Frees stopped w.calls w (concludes now ∷ finishes ∷ [])
unfolding handle conclude
concludes-Frees stopped w r now e h over =
    let counted = record r { timer = false; concluded = true } in
    let v = record w {
      running = some counted;
      runs_total = status_of r ∷ w.runs_total;
      run_duration = (now - r.started_at) ∷ w.run_duration;
    } in
    after-Frees stopped w.calls w v (concludes now) (finishes ∷ [])
      (ap (in_run w (concludes now)) e ∙ if_true {b = r.raced && not r.concluded} _ (ground arith))
      (finishes-Frees stopped v counted refl refl)

expires-Frees :
    (stopped : Bool) (w : WorkerState) (r : Run) (now : ℕ)
    → w.running ≡ some r
    → r.concluded ≡ false
    → r.timer ≡ true
    → Frees stopped w.calls w (expires ∷ concludes now ∷ finishes ∷ [])
unfolding handle expire
expires-Frees stopped w r now e h armed =
    let over = record r {
      timer = false;
      timed_out = r.timed_out || not r.handler_settled;
      raced = true;
    } in
    let v = record w { running = some over } in
    after-Frees stopped w.calls w v expires (concludes now ∷ finishes ∷ [])
      (ap (in_run w expires) e ∙ ap (with_run w) (if_true _ armed))
      (concludes-Frees stopped v over now refl h refl)

-- A pending run can always be ended without its handler, by its timer at the latest: the worker is
-- then free for its next tick, and no handler has been called in between.
pub way_out-Frees :
    (stopped : Bool) (w : WorkerState) (r : Run) (now : ℕ)
    → Kept w
    → w.running ≡ some r
    → Frees stopped w.calls w (way_out now r)
way_out-Frees stopped w r now k e =
    if_cases (Frees stopped w.calls w) r.concluded (finishes-Frees stopped w r e) (λ h.
      if_cases (Frees stopped w.calls w) r.raced (concludes-Frees stopped w r now e h)
        (λ waits. expires-Frees stopped w r now e h (ground (arith, k.ends, e))))
