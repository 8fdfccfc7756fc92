-- ===== src/Scheduler/Runs.antt =====
-- The runs of a worker, as src/shared/workers/scheduler.ts keeps and counts them.
use emcp.Prelude.{
  ℕ, zero, suc, ◌+◌, ◌≤◌, ◌≡◌, refl, inl, inr, Bool, true, false, Option, none, some, List, [], ◌∷◌,
  ◌++◌, map, arith, if◌then◌else◌, not, ◌||◌, ◌&&◌, length, All, Option-cases, if_cases, Every,
  Every-some, Every-bind, All-map, All-mono,
}
use emcp.Scheduler.{
  RunStatus, skipped_overlap, timeout, WorkerDefinition, Run, WorkerState, Scheduler, run_once,
  settle, expire, status_of, conclude, finish, Event, ticks, settles, settles_late, expires,
  concludes, finishes, with_run, late_settled, in_run, handle, new_state, start, stop, handle_at,
  idle, Step, starts, stops, happens, Reach, here, later,
}

-- the statuses of runs that were begun, and among them the timeouts
unfoldable pub begun : List RunStatus → ℕ
begun [] = 0
begun (skipped_overlap ∷ ss) = begun ss
begun (_ ∷ ss) = suc (begun ss)

unfoldable pub timeouts : List RunStatus → ℕ
timeouts [] = 0
timeouts (timeout ∷ ss) = suc (timeouts ss)
timeouts (_ ∷ ss) = timeouts ss

-- a run that is not counted yet
abbrev pub uncounted : Option Run → ℕ
uncounted none = 0
uncounted (some r) = if r.concluded then 0 else 1

-- a handler that runs within its run
abbrev pub unsettled : Option Run → ℕ
unsettled none = 0
unsettled (some r) = if r.handler_settled then 0 else 1

-- a run whose handler had not settled when it was counted
abbrev pub given_up : Option Run → ℕ
given_up none = 0
given_up (some r) = if r.concluded && not r.handler_settled then 1 else 0

abbrev pub is_running : Option Run → Bool
is_running none = false
is_running (some r) = true

-- While a run is not counted, its timer is armed or its race is over.
abbrev pub can_end : Option Run → Bool
can_end none = true
can_end (some r) = r.timer || r.raced

pub record Kept (w : WorkerState) : Type 0 where
  pub flag : w.in_flight ≡ is_running w.running
  pub counted : w.calls ≡ begun w.runs_total + uncounted w.running
  pub observed : length w.run_duration ≡ begun w.runs_total
  pub loose : w.late + given_up w.running ≤ timeouts w.runs_total
  pub ends : can_end w.running ≡ true

new_state-Kept : (d : WorkerDefinition) → Kept (new_state d)
unfolding begun timeouts
new_state-Kept d = record {
  flag = refl;
  counted = refl;
  observed = refl;
  loose = omega arith;
  ends = refl;
}

run_once-Kept :
    (stopped : Bool) (now : ℕ) (w : WorkerState) → Kept w → Kept (run_once stopped now w)
unfolding run_once begun timeouts
run_once-Kept true now w k = k
run_once-Kept false now w k =
    if_cases Kept w.in_flight
      (λ busy. record {
        flag = k.flag;
        counted = k.counted;
        observed = k.observed;
        loose = k.loose;
        ends = k.ends;
      })
      (λ free. record {
        flag = refl;
        counted = elim (Option-cases w.running) [
          | inl e ↦ ground (arith, k.counted, e)
          | inr (r, e) ↦ ground (arith, e)
        ];
        observed = k.observed;
        loose = omega (arith, k.loose);
        ends = refl;
      })

settles-Kept :
    (w : WorkerState) (r : Run) (b : Bool)
    → w.running ≡ some r
    → Kept w
    → Every Kept (with_run w (settle b r))
unfolding settle
settles-Kept w r b e k =
    if_cases (λ o. Every Kept (with_run w o)) r.handler_settled (λ _. tt)
      (λ unsettled_yet. record {
        flag = ground (arith, k.flag, e);
        counted = ground (arith, k.counted, e);
        observed = k.observed;
        loose = ground (arith, k.loose, e);
        ends = ground arith;
      })

expires-Kept :
    (w : WorkerState) (r : Run) → w.running ≡ some r → Kept w → Every Kept (with_run w (expire r))
unfolding expire
expires-Kept w r e k =
    if_cases (λ o. Every Kept (with_run w o)) r.timer
      (λ armed. record {
        flag = ground (arith, k.flag, e);
        counted = ground (arith, k.counted, e);
        observed = k.observed;
        loose = ground (arith, k.loose, e);
        ends = refl;
      })
      (λ _. tt)

concludes-Kept :
    (w : WorkerState) (r : Run) (now : ℕ)
    → w.running ≡ some r
    → Kept w
    → Every Kept (conclude now w r)
unfolding conclude status_of begun timeouts
concludes-Kept w r now e k =
    if_cases (Every Kept) (r.raced && not r.concluded)
      (λ over. record {
        flag = ground (arith, k.flag, e);
        counted = ground (arith, k.counted, e);
        observed = ground (arith, k.observed);
        loose = ground (arith, k.loose, e);
        ends = ground arith;
      })
      (λ _. tt)

finishes-Kept : (w : WorkerState) (r : Run) → w.running ≡ some r → Kept w → Every Kept (finish w r)
unfolding finish
finishes-Kept w r e k =
    if_cases (Every Kept) r.concluded
      (λ over. record {
        flag = refl;
        counted = ground (arith, k.counted, e);
        observed = k.observed;
        loose = ground (arith, k.loose, e);
        ends = refl;
      })
      (λ _. tt)

settles_late-Kept :
    (w : WorkerState) → Kept w → (n : ℕ) → w.late ≡ n → Every Kept (late_settled w n)
settles_late-Kept w k zero e = tt
settles_late-Kept w k (suc n) e = record {
  flag = k.flag;
  counted = k.counted;
  observed = k.observed;
  loose = omega (arith, k.loose, e);
  ends = k.ends;
}

in_run-Kept :
    (w : WorkerState) (e : Event) (o : Option Run)
    → w.running ≡ o
    → Kept w
    → Every Kept (in_run w e o)
in_run-Kept w e none h k = tt
in_run-Kept w (settles b) (some r) h k = settles-Kept w r b h k
in_run-Kept w expires (some r) h k = expires-Kept w r h k
in_run-Kept w (concludes now) (some r) h k = concludes-Kept w r now h k
in_run-Kept w finishes (some r) h k = finishes-Kept w r h k
in_run-Kept w (ticks now) (some r) h k = tt
in_run-Kept w settles_late (some r) h k = tt

handle-Kept :
    (stopped : Bool) (w : WorkerState) (e : Event) → Kept w → Every Kept (handle stopped w e)
unfolding handle
handle-Kept stopped w (ticks now) k = run_once-Kept stopped now w k
handle-Kept stopped w settles_late k = settles_late-Kept w k w.late refl
handle-Kept stopped w (settles b) k = in_run-Kept w (settles b) w.running refl k
handle-Kept stopped w expires k = in_run-Kept w expires w.running refl k
handle-Kept stopped w (concludes now) k = in_run-Kept w (concludes now) w.running refl k
handle-Kept stopped w finishes k = in_run-Kept w finishes w.running refl k

handle_at-Kept :
    (stopped : Bool) (i : ℕ) (e : Event) (ws : List WorkerState)
    → All Kept ws
    → Every (All Kept) (handle_at stopped i e ws)
unfolding handle_at
handle_at-Kept stopped i e [] ks = tt
handle_at-Kept stopped zero e (w ∷ ws) (k, ks) =
    Every-bind (All Kept) (handle stopped w e) (λ w'. some (w' ∷ ws)) (handle-Kept stopped w e k)
      (λ w' k'. (k', ks))
handle_at-Kept stopped (suc i) e (w ∷ ws) (k, ks) =
    Every-bind (All Kept) (handle_at stopped i e ws) (λ ws'. some (w ∷ ws'))
      (handle_at-Kept stopped i e ws ks) (λ ws' ks'. (k, ks'))

new_states-Kept :
    (ws : List WorkerState) (ds : List WorkerDefinition)
    → All Kept ws
    → All Kept (ws ++ map new_state ds)
new_states-Kept [] [] ks = tt
new_states-Kept [] (d ∷ ds) ks = (new_state-Kept d, new_states-Kept [] ds tt)
new_states-Kept (w ∷ ws) ds (k, ks) = (k, new_states-Kept ws ds ks)

startup-Kept :
    (stopped : Bool) (now : ℕ) (w : WorkerState)
    → Kept w
    → Kept (if w.def.run_on_startup then run_once stopped now w else w)
startup-Kept stopped now w k =
    if_cases Kept w.def.run_on_startup (λ _. run_once-Kept stopped now w k) (λ _. k)

Step-Kept : {c d : Scheduler} → Step c d → All Kept c.states → All Kept d.states
unfolding start stop
Step-Kept {c} (starts now workers) ks =
    All-map Kept (startup-Kept c.stopped now) (c.states ++ map new_state workers)
      (new_states-Kept c.states workers ks)
Step-Kept stops ks = ks
Step-Kept {c} (happens i e {ws} h) ks =
    Every-some (All Kept) h (handle_at-Kept c.stopped i e c.states ks)

-- However the events of the workers follow one another, `inFlight` is set exactly while a run is
-- pending, each call of a handler is counted once in `worker_runs_total` when its run ends and is
-- then observed once in the histogram of durations, no more handlers run on behind their run than
-- runs were counted as timed out, and a run that is not counted has its timer armed or is over.
pub Reach-Kept : {c : Scheduler} → Reach idle c → All Kept c.states
Reach-Kept here = tt
Reach-Kept (later r s) = Step-Kept s (Reach-Kept r)

-- At no time do more handlers of a worker run than one and its runs that timed out.
pub Reach-exclusive :
    {c : Scheduler}
    → Reach idle c
    → All (λ w. w.late + unsettled w.running ≤ 1 + timeouts w.runs_total) c.states
Reach-exclusive {c} r = All-mono (λ w k. ground (arith, k.loose)) c.states (Reach-Kept r)
