-- ===== src/Egress/Tests.antt =====
-- A call of src/shared/net/egress.ts that fails over from one proxy to the next, and instances.
use emcp.Prelude.{ℕ, zero, suc, ◌≡◌, refl, true, false, String, none, some, [], ◌∷◌, arith}
use emcp.Proxy.Pool.{
  round_robin, PoolEntry, Pool, next, report, is_healthy, healthy_indices, healthy_from, choose,
  entry_at, pick_from, pick_round_robin, reported, report_first, healthy_count, health_snapshot,
}
use emcp.Egress.{
  Thrown, Reply, responded, threw, Attempt, response, classify_error, is_abort_like, extract_code,
  is_known, has_new_cooldown, record_outcome, cooldown_in, settle, turn, fetch_loop, fetch_external,
}
use emcp.Egress.Trace.{statuses, Ends, fetch_external-Ends}

abbrev item : String → PoolEntry ℕ
item id = record {
  entry = record { id = id; url = "http://proxy"; dispatcher = 7 };
  last_failure_at = none;
  cooldown_until = none;
  consecutive_failures = 0;
}

abbrev pool : Pool ℕ
pool = record {
  items = item "p0" ∷ item "p1" ∷ [];
  strategy = round_robin;
  failure_cooldown_ms = 1000;
  failure_threshold = 1;
  rr_cursor = 0;
}

abbrev refused : Thrown
refused = record {
  is_object = true;
  is_error = true;
  name = "Error";
  code = some "ECONNREFUSED";
  cause_code = none;
}

abbrev reply_at : ℕ → Reply ℕ
reply_at zero = threw refused
reply_at (suc k) = responded 200

abbrev world : ℕ → Attempt ℕ ℕ
world k = record {
  next_at = 10;
  draw = λ n. 0;
  started_at = 10;
  reply = λ e. reply_at k;
  signal_aborted = false;
  reported_at = 11;
  recorded_at = 11;
  checked_at = 11;
  gauged_at = 11;
}

fails_over : (fetch_external false (some pool) 3 (responded 0) world).result ≡ response 200
unfolding next report is_healthy healthy_indices healthy_from choose entry_at pick_from
    pick_round_robin reported report_first healthy_count health_snapshot classify_error
    is_abort_like extract_code is_known has_new_cooldown record_outcome cooldown_in settle turn
    fetch_loop fetch_external
fails_over = refl

fetch_external-Ends_example :
    Ends world 2 0 [] none
      (fetch_external false (some pool) 3 (responded 0) world).result
      (statuses (fetch_external false (some pool) 3 (responded 0) world).metrics)
fetch_external-Ends_example = fetch_external-Ends pool 3 (responded 0) world (omega arith)
