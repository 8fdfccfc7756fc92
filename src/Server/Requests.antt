-- ===== src/Server/Requests.antt =====
-- The routing of src/server.ts by URL, and its health and metrics pages, by their HTTP status.
use emcp.Prelude.{
  ℕ, Bool, true, false, ◌&&◌, ◌||◌, Option, none, some, List, [], ◌∷◌, codes, same_text,
  if◌then◌else◌,
}
use emcp.Server.Gate.{Method, get_method}

unfoldable pub is_loopback : Option (List ℕ) → Bool
is_loopback none = false
is_loopback (some address) =
    same_text address (codes "127.0.0.1")
    || (same_text address (codes "::1") || same_text address (codes "::ffff:127.0.0.1"))

abbrev pub expected_health_checks : List (List ℕ)
expected_health_checks = codes "db" ∷ codes "redis" ∷ []

-- the status of each check by its name
abbrev pub Checks : Type 0
Checks = List (List ℕ × List ℕ)

unfoldable pub status_of : Checks → List ℕ → Option (List ℕ)
status_of [] name = none
status_of ((check, status) ∷ checks) name =
    let later = status_of checks name in if same_text check name then some status else later

abbrev pub is_ok_status : Option (List ℕ) → Bool
is_ok_status none = false
is_ok_status (some status) = same_text status (codes "ok")

unfoldable pub all_ok_of : Checks → List (List ℕ) → Bool
all_ok_of checks [] = true
all_ok_of checks (name ∷ names) = is_ok_status (status_of checks name) && all_ok_of checks names

unfoldable pub compute_health_all_ok : Checks → Bool
compute_health_all_ok checks = all_ok_of checks expected_health_checks

abbrev pub status_text : Bool → List ℕ
status_text answers = if answers then codes "ok" else codes "fail"

-- `db` and `redis`: whether they answer within a second
unfoldable pub handle_health : Option (List ℕ) → Bool → Bool → ℕ
handle_health local_address db redis =
    if is_loopback local_address
    then if compute_health_all_ok
        ((codes "db", status_text db) ∷ (codes "redis", status_text redis) ∷ [])
      then 200
      else 503
    else 403

unfoldable pub handle_metrics : Option (List ℕ) → ℕ
handle_metrics local_address = if is_loopback local_address then 200 else 403

abbrev pub is_get : Method → Bool
is_get get_method = true
is_get _ = false

-- `mcp`: the request goes to `handleMcp`
pub data Page : Type 0 where
  status : ℕ → Page
  mcp : Page

unfoldable pub handle_request : List ℕ → Method → Option (List ℕ) → Bool → Bool → Page
handle_request url method local_address db redis =
    if same_text url (codes "/health") && is_get method
    then status (handle_health local_address db redis)
    else if same_text url (codes "/metrics") && is_get method
    then status (handle_metrics local_address)
    else if same_text url (codes "/mcp")
    then mcp
    else status 404
