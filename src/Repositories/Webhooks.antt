-- ===== src/Repositories/Webhooks.antt =====
-- internal/repositories/webhook_repository.go: endpoints, and deliveries in the order of their
-- creation.
use finn_api_go.Prelude.{
  ℕ, zero, suc, String, str_eq, Bool, true, false, ◌&&◌, ◌||◌, Option, none, some, List, [], ◌∷◌,
  ◌++◌, leb,
}
use finn_api_go.Prelude.Text.{split, trim_space}
use finn_api_go.Models.{
  WebhookEndpoint, WebhookDelivery, DeliveryStatus, pending, failed, delivered,
}
use finn_api_go.Database.{
  Action, ⊤, ◌>>=◌, ◌>>◌, pure, gets, query, raise_if, modify, duplicate_key,
}
use finn_api_go.Database.Table.{any_where, filter_where, update_where}
use finn_api_go.Repositories.Scope.{scope_tenant}

unfoldable pub listens : String → List String → Bool
listens event [] = false
listens event (e ∷ es) =
    let name = trim_space e in str_eq name "*" || str_eq name event || listens event es

abbrev pub is_pending : DeliveryStatus → Bool
is_pending pending = true
is_pending failed = false
is_pending delivered = false

abbrev pub is_due : ℕ → WebhookDelivery → Bool
is_due now d = is_pending d.status && elim d.next_retry_at [ none ↦ true | some t ↦ leb t now ]

-- `LIMIT`
unfoldable pub at_most : ℕ → List WebhookDelivery → List WebhookDelivery
at_most zero ds = []
at_most (suc n) [] = []
at_most (suc n) (d ∷ ds) = d ∷ at_most n ds

module _ (tid : String) where
  unfoldable pub create_endpoint : WebhookEndpoint → Action WebhookEndpoint
  create_endpoint ep = do
    scope_tenant tid ep.tenant_id
    query
    taken ← gets (λ w. any_where (λ e. str_eq e.id ep.id) w.webhook_endpoints)
    raise_if taken duplicate_key
    let owned = record ep { tenant_id = tid }
    modify (λ w. record w { webhook_endpoints = w.webhook_endpoints ++ owned ∷ [] })
    pure owned

  unfoldable pub find_active_endpoints_by_event : String → String → Action (List WebhookEndpoint)
  find_active_endpoints_by_event requested event = do
    scope_tenant tid requested
    query
    gets (λ w.
        filter_where
          (λ e. str_eq e.tenant_id tid && e.is_active && listens event (split b',' e.events))
          w.webhook_endpoints)

unfoldable pub create_delivery : WebhookDelivery → Action ⊤
create_delivery d = do
  query
  taken ← gets (λ w. any_where (λ e. str_eq e.id d.id) w.webhook_deliveries)
  raise_if taken duplicate_key
  modify (λ w. record w { webhook_deliveries = w.webhook_deliveries ++ d ∷ [] })

unfoldable pub get_pending_deliveries : ℕ → ℕ → Action (List WebhookDelivery)
get_pending_deliveries now limit = do
  query
  gets (λ w. at_most limit (filter_where (is_due now) w.webhook_deliveries))

abbrev pub has_id : String → WebhookDelivery → Bool
has_id id d = str_eq d.id id

unfoldable pub update_delivery_status :
    ℕ → String → DeliveryStatus → ℕ → Option ℕ → Option ℕ → String → Action ⊤
update_delivery_status now id status attempts next_retry response message = do
  query
  modify (λ w. record w {
    webhook_deliveries =
        update_where (has_id id)
          (λ d. record d {
            status = status;
            attempts = attempts;
            next_retry_at = next_retry;
            response_status = response;
            error_msg = message;
            updated_at = now;
          })
          w.webhook_deliveries;
  })
