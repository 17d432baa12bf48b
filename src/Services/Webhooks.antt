-- ===== src/Services/Webhooks.antt =====
-- internal/services/webhook_service.go: registration, the queue of events, and one delivery. The
-- HTTP client is a parameter but for the screening of what it dials.
pub mod Retry
mod Tests
use finn_api_go.Prelude.{
  ℕ, ◌+◌, ◌*◌, ◌/◌, ◌%◌, ◌^◌, ◌==◌, String, ◌<>◌, str_eq, is_empty, Bool, true, false, not, ◌&&◌,
  ◌||◌, Option, none, some, List, [], ◌∷◌, leb, ltb, if◌then◌else◌,
}
use finn_api_go.Prelude.Int64.{show_uint}
use finn_api_go.Models.{
  WebhookEndpoint, WebhookDelivery, DeliveryStatus, pending, failed, delivered,
}
use finn_api_go.Database.{
  Action, ⊤, ◌>>=◌, ◌>>◌, pure, raise, raise_if, when, ignore, generating, webhook_ssrf_blocked,
  invalid_webhook_url, webhook_failed, encoding, network,
}
use finn_api_go.Repositories.Webhooks
use finn_api_go.Services.{minute}
use finn_api_go.Services.Support.{draw}

-- `net.IP`: 32 bits, or the first 16 of 128 bits and the other 112.
pub data Ip : Type 0 where
  v4 : ℕ → Ip
  v6 : ℕ → ℕ → Ip

-- The loopback, private, link-local unicast and multicast, multicast and unspecified ranges.
abbrev pub blocked_v4 : ℕ → Bool
blocked_v4 n =
    n / 2 ^ 24 == 127
    || n / 2 ^ 24 == 10
    || n / 2 ^ 20 == 172 * 16 + 1
    || n / 2 ^ 16 == 192 * 256 + 168
    || n / 2 ^ 16 == 169 * 256 + 254
    || n / 2 ^ 8 == 224 * 2 ^ 16
    || n / 2 ^ 28 == 14
    || n == 0

-- `blockedIP`: an IPv4 address in IPv6 counts as the IPv4 address (`To4`).
unfoldable pub blocked_ip : Ip → Bool
blocked_ip (v4 n) = blocked_v4 n
blocked_ip (v6 g rest) =
    if g == 0 && rest / 2 ^ 32 == 0xffff
    then blocked_v4 (rest % 2 ^ 32)
    else g == 0 && rest == 1
      || g / 2 ^ 9 == 0x7e
      || g / 2 ^ 6 == 0x3fa
      || g / 2 ^ 8 == 0xff && g % 2 ^ 4 == 2
      || g / 2 ^ 8 == 0xff
      || g == 0 && rest == 0

unfoldable pub any_blocked : List Ip → Bool
any_blocked [] = false
any_blocked (ip ∷ ips) = blocked_ip ip || any_blocked ips

-- How the HTTP client answers a request: an error, or a status.
pub data Reply : Type 0 where
  unreachable : String → Reply
  answered : ℕ → Reply

-- The parts that are not the repository's: parsing of URLs (scheme, host with port, host), name
-- resolution and the client by the number of the draw, encodings and random sources.
pub record WebhookEnv : Type 0 where
  pub parse_url : String → Option (String × String × String)
  pub split_host_port : String → Option String
  pub lookup_ip : ℕ → String → Option (List Ip)
  pub post : ℕ → String → List (String × String) → String → Reply
  pub hmac_sha256_hex : String → String → String
  pub marshal : String → ℕ → String → String → Option String
  pub random_hex : ℕ → Option String
  pub new_uuid : ℕ → String

-- `WebhookService`
pub record WebhookService : Type 0 where
  pub repo_wired : Bool
  pub allow_localhost : Bool

module _ (env : WebhookEnv) (svc : WebhookService) where
  abbrev resolved : ℕ → String → Action (List Ip)
  resolved n host = elim (env.lookup_ip n host) [ none ↦ raise network | some ips ↦ pure ips ]

  -- `DialContext`: the address that is dialed; `none` leaves the choice to the dialer, which is not
  -- screened for localhost targets.
  unfoldable pub dial_context : String → Action (Option Ip)
  dial_context addr = if svc.allow_localhost then pure none else elim (env.split_host_port addr) [
    | none ↦ raise network
    | some host ↦ do
      n ← draw
      ips ← resolved n host
      raise_if (any_blocked ips) webhook_ssrf_blocked
      elim ips [ [] ↦ raise network | ip ∷ rest ↦ pure (some ip) ]
  ]

  -- `ValidateURL`
  unfoldable pub validate_url : String → Action ⊤
  validate_url url = elim (env.parse_url url) [
    | none ↦ raise invalid_webhook_url
    | some u ↦
        let (scheme, host, hostname) = u in
        if not (str_eq scheme "http") && not (str_eq scheme "https") || is_empty host
        then raise invalid_webhook_url
        else if svc.allow_localhost
        then pure tt
        else (do
          n ← draw
          ips ← resolved n hostname
          raise_if (any_blocked ips) webhook_ssrf_blocked)
  ]

  module _ (tid : String) (now : ℕ) where
    -- `RegisterEndpoint`
    unfoldable pub register_endpoint : String → String → String → Action WebhookEndpoint
    register_endpoint tenant_id url events = do
      validate_url url
      n ← draw
      elim (env.random_hex n) [
        | none ↦ raise generating
        | some secret ↦ do
          m ← draw
          Webhooks.create_endpoint tid (record {
            id = env.new_uuid m;
            tenant_id = tenant_id;
            url = url;
            secret = secret;
            events = events;
            is_active = true;
            created_at = now;
          })
      ]

    -- A row for every endpoint; what cannot be written is passed over.
    unfoldable pub queue_all : String → String → List WebhookEndpoint → Action ⊤
    queue_all event payload [] = pure tt
    queue_all event payload (ep ∷ eps) = do
      n ← draw
      ignore (
          Webhooks.create_delivery (record {
            id = env.new_uuid n;
            endpoint_id = ep.id;
            event = event;
            payload = payload;
            status = pending;
            attempts = 0;
            next_retry_at = none;
            response_status = none;
            error_msg = "";
            created_at = now;
            updated_at = now;
          }))
      queue_all event payload eps

    -- `EnqueueEvent`
    unfoldable pub enqueue_event : String → String → String → Action ⊤
    enqueue_event tenant_id event content = when svc.repo_wired (do
      eps ← Webhooks.find_active_endpoints_by_event tid tenant_id event
      elim eps [
        | [] ↦ pure tt
        | ep ∷ rest ↦ elim (env.marshal event now tenant_id content) [
          | none ↦ raise encoding
          | some payload ↦ queue_all event payload (ep ∷ rest)
        ]
      ])

  -- `SignPayload`
  abbrev pub sign_payload : String → String → String
  sign_payload secret payload = "sha256=" <> env.hmac_sha256_hex secret payload

  -- What follows a failure: five attempts at most, each wait twice the one before.
  abbrev pub retry_status : ℕ → DeliveryStatus
  retry_status attempts = if leb 5 attempts then failed else pending

  abbrev pub next_retry : ℕ → ℕ → Option ℕ
  next_retry now attempts = if leb 5 attempts then none else some (now + 2 ^ attempts * minute)

  -- `DeliverOne` after the request.
  unfoldable pub settle : ℕ → WebhookDelivery → Reply → Action ⊤
  settle now d (unreachable message) = do
    let attempts = d.attempts + 1
    ignore (
        Webhooks.update_delivery_status now d.id (retry_status attempts) attempts
          (next_retry now attempts) none message)
    raise network
  settle now d (answered status) =
      let attempts = d.attempts + 1 in
      if leb 200 status && ltb status 300
      then ignore
          (Webhooks.update_delivery_status now d.id delivered attempts none (some status) "")
      else (do
        ignore (
            Webhooks.update_delivery_status now d.id (retry_status attempts) attempts
              (next_retry now attempts) (some status) ("HTTP " <> show_uint status))
        raise webhook_failed)

  -- `DeliverOne`; a URL that has been parsed makes a request.
  unfoldable pub deliver_one : ℕ → WebhookDelivery → String → String → Action ⊤
  deliver_one now d secret url = do
    validate_url url
    n ← draw
    settle now d (
        env.post n url
          (("Content-Type", "application/json")
            ∷ ("X-Signature-256", sign_payload secret d.payload)
            ∷ ("X-Event", d.event)
            ∷ ("X-Delivery-ID", d.id)
            ∷ [])
          d.payload)
