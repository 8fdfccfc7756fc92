-- ===== src/Shutdown/Tests.antt =====
-- Runs of src/lib/shutdown.ts with three handlers, and an instance.
use emcp.Prelude.{◌*◌, ◌≤◌, ◌≡◌, refl, max, true, false, none, some, [], ◌∷◌}
use emcp.Shutdown.{
  ShutdownRegistry, finished, failed, timed_out, register, per_handler_timeout_ms, run_one,
  run_down, execute, run, elapsed, handle_signal,
}
use emcp.Shutdown.Order.{reverse, names_of, called, run_in_order}

all_shutdown : Unit {0}
unfolding register per_handler_timeout_ms run_one run_down execute run handle_signal
all_shutdown = tt

abbrev bare : ShutdownRegistry
bare = record { entries = []; started = none; total_timeout_ms = 900; min_handler_timeout_ms = 500 }

abbrev registry : ShutdownRegistry
registry = record bare {
  entries =
      record { name = "pool"; handler = record { settles_after = some 10; rejects = false } }
      ∷ record { name = "redis"; handler = record { settles_after = some 20; rejects = true } }
      ∷ record { name = "server"; handler = record { settles_after = none; rejects = false } }
      ∷ [];
}

registers :
    register
      (register
        (register bare "pool" (record { settles_after = some 10; rejects = false }))
        "redis"
        (record { settles_after = some 20; rejects = true }))
      "server"
      (record { settles_after = none; rejects = false })
    ≡ registry
unfolding all_shutdown
registers = refl

-- the last handler hangs, and the others are called all the same
runs_down :
    (run registry "signal").0
    ≡ record { name = "server"; ending = timed_out; elapsed = 500 }
      ∷ record { name = "redis"; ending = failed; elapsed = 20 }
      ∷ record { name = "pool"; ending = finished; elapsed = 10 }
      ∷ []
unfolding all_shutdown
runs_down = refl

exit_codes : (handle_signal false ≡ 0) × (handle_signal true ≡ 1)
unfolding all_shutdown
exit_codes = (refl, refl)

run_in_order_example :
    (called (run registry "signal").0 ≡ reverse (names_of registry.entries))
    × (elapsed (run registry "signal").0 ≤ max 900 (3 * 500))
    × ((run (run registry "signal").1 "again").0 ≡ [])
run_in_order_example = run_in_order registry "signal" "again" refl
