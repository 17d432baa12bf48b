-- ===== src/Services/Webhooks/Tests.antt =====
-- Webhooks at concrete inputs.
use finn_api_go.Prelude.{
  ◌≡◌, ◌≤◌, refl, ◌*◌, ◌+◌, ◌^◌, true, false, none, some, List, [], ◌∷◌, ℕ, arith,
}
use finn_api_go.Models.{WebhookDelivery, pending}
use finn_api_go.Database.{World, ok, err, webhook_ssrf_blocked}
use finn_api_go.Database.Example.{acme}
use finn_api_go.Repositories.Webhooks.{is_pending}
use finn_api_go.Services.Webhooks.{
  Ip, v4, v6, blocked_ip, Reply, answered, WebhookEnv, WebhookService, validate_url, deliver_one,
  register_endpoint, enqueue_event, dial_context,
}
use finn_api_go.Services.Webhooks.Retry.{row_of, rounds, rounds-end}

-- The host answers 500, and its name is that of an address in the net 10/8.
abbrev env : WebhookEnv
env = record {
  parse_url = λ url. some ("https", "hooks.example.org", "hooks.example.org");
  split_host_port = λ addr. some addr;
  lookup_ip = λ n host. some (v4 (10 * 2 ^ 24 + 1) ∷ []);
  post = λ n url headers body. answered 500;
  hmac_sha256_hex = λ secret payload. "mac";
  marshal = λ event now tid content. some "{}";
  random_hex = λ n. some "fresh";
  new_uuid = λ n. "d1";
}

abbrev open_svc : WebhookService
open_svc = record { repo_wired = true; allow_localhost = true }

abbrev svc : WebhookService
svc = record { repo_wired = true; allow_localhost = false }

abbrev queued : WebhookDelivery
queued = record {
  id = "d1";
  endpoint_id = "e1";
  event = "user.created";
  payload = "{}";
  status = pending;
  attempts = 0;
  next_retry_at = none;
  response_status = none;
  error_msg = "";
  created_at = 0;
  updated_at = 0;
}

abbrev start : World
start = record acme { webhook_deliveries = queued ∷ [] }

abbrev times : List ℕ
times = 1 ∷ 2 ∷ 3 ∷ 4 ∷ 5 ∷ []

valid : (v : World) → (validate_url env open_svc "https://hooks.example.org" v).0 ≡ ok tt
unfolding validate_url
valid v = refl

start_row : row_of "d1" start ≡ (some queued, [])
unfolding finn_api_go.Database.Table.first_where
start_row = refl

rounds-end_example :
    (d : WebhookDelivery) × (row_of "d1"
        (rounds env open_svc "d1" "s" "https://hooks.example.org" times start).1
      ≡ (some d, []))
    × (is_pending d.status ≡ false)
    × (d.attempts ≤ 5)
rounds-end_example =
    rounds-end env open_svc "d1" "s" "https://hooks.example.org" valid times queued start start_row
      (omega arith, λ p. omega arith) (omega arith)

-- A delivery whose name leads to a blocked address is refused, and its row is as it was.
stuck :
    let (r, w) = deliver_one env svc 9 queued "s" "https://hooks.example.org" start in
    (r ≡ err webhook_ssrf_blocked) × (row_of "d1" w ≡ (some queued, []))
unfolding deliver_one validate_url finn_api_go.Services.Support.draw
    finn_api_go.Services.Webhooks.any_blocked blocked_ip finn_api_go.Database.Table.first_where
stuck = (refl, refl)

blocked_ranges :
    (blocked_ip (v4 (172 * 2 ^ 24 + 31 * 2 ^ 16)) ≡ true)
    × (blocked_ip (v4 (8 * 2 ^ 24 + 8)) ≡ false)
    × (blocked_ip (v6 0 (0xffff * 2 ^ 32 + 127 * 2 ^ 24 + 1)) ≡ true)
    × (blocked_ip (v6 0xfe80 1) ≡ true)
    × (blocked_ip (v6 0x2001 1) ≡ false)
unfolding blocked_ip
blocked_ranges = (refl, refl, refl, refl, refl)
