-- ===== src/Fetch/Tests.antt =====
-- Runs of src/shared/net/http.ts against a network of two hosts, and instances.
use emcp.Prelude.{
  ℕ, ◌≡◌, refl, true, false, none, some, List, [], ◌∷◌, arith, codes, same_text, ltb, length,
  concat, All, split, strip_prefix, is_decimal, decimal_from, is_lower_hex, hex_digit, hex_from,
  to_lower, if◌then◌else◌,
}
use emcp.Address.{matches_ipv4, v4_mapped}
use emcp.Address.Private.{
  take, is_private_ipv4, is_private_address, is_private_ipv6, normalize_ipv6, is_private_hex,
  extract_ipv4, pad, join, assert_public_hostname,
}
use emcp.Fetch.{
  Url, HttpResponse, Stream, Reply, responds, fails, other, found, Net, Contact, address, Outcome,
  returns, throws, bubbles, validation_error, Mode, pinned, proxied, mode_of, FetchSafeOptions,
  is_connect_error, map_fetch_error, read_from, read_capped_body,
}
use emcp.Fetch.Loop.{
  after_connect, try_from, pin, pin_resolved, pinned_fetch, guard, caught, guarded, ask, redirect,
  after_reply, hop_turn, redirect_loop, fetch_safe,
}
use emcp.Fetch.Capped.{read_capped_body-take}
use emcp.Fetch.Ends.{fetch_safe_ends}
use emcp.Fetch.Guarded.{IsSafe, fetch_safe_contacts}

all_fetch : Unit {0}
unfolding same_text split strip_prefix is_decimal decimal_from is_lower_hex hex_digit hex_from
    to_lower matches_ipv4 v4_mapped is_private_ipv4 is_private_address is_private_ipv6
    normalize_ipv6 is_private_hex extract_ipv4 pad join assert_public_hostname mode_of
    is_connect_error map_fetch_error read_from read_capped_body after_connect try_from pin
    pin_resolved pinned_fetch guard caught guarded ask redirect after_reply hop_turn redirect_loop
    fetch_safe
all_fetch = tt

abbrev url : List ℕ → Url
url host = record { protocol = codes "https:"; hostname = host; href = host }

abbrev refused : Reply
refused = fails (record { kind = other; code = some (codes "ECONNREFUSED"); cause_code = none })

abbrev moved : HttpResponse
moved = record { status = 302; location = some (codes "b"); content_type = none; body = none }

abbrev page : Stream
page = record { chunks = (1 ∷ 2 ∷ []) ∷ (3 ∷ 4 ∷ []) ∷ []; breaks = none }

-- `b` is public at first, and private from the second hop on
abbrev addresses : ℕ → List ℕ → List (List ℕ)
addresses hop host =
    if same_text host (codes "a")
    then codes "8.8.8.8" ∷ codes "8.8.4.4" ∷ []
    else if ltb hop 1
    then codes "1.1.1.1" ∷ []
    else codes "10.0.0.1" ∷ []

abbrev net : Net
net = record {
  resolve = λ hop host. found (addresses hop host);
  connect = λ hop place u addr.
      if ltb 0 place
      then responds moved
      else if same_text u.hostname (codes "b")
      then responds
          (record { status = 200; location = none; content_type = none; body = some page })
      else refused;
  send = λ hop u. responds moved;
  is_aborted = λ hop. false;
  parse_url = λ text. some (url text);
  parse_relative = λ text base. some (url text);
}

abbrev options : Mode → FetchSafeOptions
options mode = record { mode = mode; max_bytes = 3; max_redirects = 2 }

-- the first address refuses, the second redirects to a name that is private by then
rebinding :
    fetch_safe net (options pinned) 3 (codes "a")
    ≡ some (
      throws (bubbles validation_error),
      address (url (codes "a")) (codes "8.8.8.8")
          ∷ address (url (codes "a")) (codes "8.8.4.4")
          ∷ [],
    )
unfolding all_fetch
rebinding = refl

capped :
    fetch_safe net (options pinned) 3 (codes "b")
    ≡ some (
      returns (record {
        final_url = codes "b";
        status = 200;
        content_type = none;
        body = 1 ∷ 2 ∷ 3 ∷ [];
        wire_truncated = true;
      }),
      address (url (codes "b")) (codes "1.1.1.1") ∷ [],
    )
unfolding all_fetch
capped = refl

fetch_safe_ends_example :
    (o : Outcome × List Contact) × (fetch_safe net (options proxied) 3 (codes "a") ≡ some o)
fetch_safe_ends_example = fetch_safe_ends net (options proxied) 3 (codes "a") (omega arith)

fetch_safe_contacts_example :
    All (IsSafe net pinned) (
      address (url (codes "a")) (codes "8.8.8.8")
      ∷ address (url (codes "a")) (codes "8.8.4.4")
      ∷ [])
fetch_safe_contacts_example =
    fetch_safe_contacts net (options pinned) 3 (codes "a") (throws (bubbles validation_error))
      (address (url (codes "a")) (codes "8.8.8.8")
        ∷ address (url (codes "a")) (codes "8.8.4.4")
        ∷ [])
      rebinding

read_capped_body-take_example :
    ((read_capped_body (some page) 3).0.0 ≡ take 3 (concat page.chunks))
    × ((read_capped_body (some page) 3).0.1 ≡ ltb 3 (length (concat page.chunks)))
read_capped_body-take_example = read_capped_body-take 3 page
