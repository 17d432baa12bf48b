-- ===== src/Services/Webhooks/Retry.antt =====
-- `DeliverOne` of internal/services/webhook_service.go, again and again.
use finn_api_go.Prelude.{
  ℕ, ◌+◌, ◌≡◌, ◌<>◌, ◌≤◌, ◌<◌, refl, ap, ◌∙◌, String, eq_refl, Bool, true, false, ◌&&◌, Option,
  none, some, Bool-cases, inl, inr, List, [], ◌∷◌, ltb, leb, length, arith,
}
use finn_api_go.Models.{WebhookDelivery, DeliveryStatus, delivered}
use finn_api_go.Prelude.Int64.{show_uint}
use finn_api_go.Database.{
  World, Action, Result, ok, ⊤, ◌>>=◌, ◌>>◌, pure, gets, when, ignore, query,
}
use finn_api_go.Database.Frame.{Frame}
use finn_api_go.Database.Rows.{first_where-update_where}
use finn_api_go.Database.Table.{first_where}
use finn_api_go.Repositories.Webhooks.{is_pending, has_id, update_delivery_status}
use finn_api_go.Services.Support.{draw}
use finn_api_go.Services.Webhooks.{
  WebhookEnv, WebhookService, Reply, unreachable, answered, validate_url, settle, sign_payload,
  retry_status, next_retry, deliver_one,
}

-- The row of a delivery, and the failures of the database to come.
abbrev pub row_of : String → World → Option WebhookDelivery × List Bool
row_of id w = (first_where (has_id id) w.webhook_deliveries, w.faults)

module _ (env : WebhookEnv) (svc : WebhookService) (id secret url : String) where
  validate_url-Frame : Frame (row_of id) (validate_url env svc url)
  unfolding validate_url draw
  validate_url-Frame w = ground arith

  abbrev settled :
      ℕ → DeliveryStatus → ℕ → Option ℕ → Option ℕ → String → WebhookDelivery → WebhookDelivery
  settled now status attempts next response message d = record d {
    status = status;
    attempts = attempts;
    next_retry_at = next;
    response_status = response;
    error_msg = message;
    updated_at = now;
  }

  update-row :
      (now : ℕ) (d : WebhookDelivery) (status : DeliveryStatus) (attempts : ℕ)
      (next response : Option ℕ) (message : String) (w : World)
      → row_of id w ≡ (some d, [])
      → row_of id (update_delivery_status now d.id status attempts next response message w).1
        ≡ (some (settled now status attempts next response message d), [])
  unfolding update_delivery_status query
  update-row now d status attempts next response message w e =
      let found =
        first_where-update_where (has_id id) (has_id d.id)
          (settled now status attempts next response message) w.webhook_deliveries d (λ t. refl)
          (ap (λ x. x.0) e) (eq_refl d.id) in
      ground (arith, found, e)

  -- A delivery that is still pending has not been tried five times.
  abbrev pub Bounded : WebhookDelivery → Type 0
  Bounded d = (d.attempts ≤ 5) × (is_pending d.status ≡ true → d.attempts < 5)

  settle-row :
      (now : ℕ) (d : WebhookDelivery) (r : Reply) (w : World)
      → row_of id w ≡ (some d, [])
      → d.attempts < 5
      → (d' : WebhookDelivery) × (row_of id (settle env svc now d r w).1 ≡ (some d', []))
        × (d'.attempts ≡ d.attempts + 1)
        × Bounded d'
  unfolding settle
  settle-row now d (unreachable message) w e few =
      let n = d.attempts + 1 in
      (
        settled now (retry_status env svc n) n (next_retry env svc now n) none message d,
        update-row now d (retry_status env svc n) n (next_retry env svc now n) none message w e,
        refl,
        (ground arith, ground arith),
      )
  settle-row now d (answered code) w e few =
      let n = d.attempts + 1 in
      let message = "HTTP " <> show_uint code in
      elim (Bool-cases (leb 200 code && ltb code 300)) [
        | inl good ↦ (
          settled now delivered n none (some code) "" d,
          ground (arith, good, update-row now d delivered n none (some code) "" w e),
          refl,
          (ground arith, ground arith),
        )
        | inr bad ↦ (
          settled now (retry_status env svc n) n (next_retry env svc now n) (some code) message d,
          ground (
            arith,
            bad,
            update-row now d (retry_status env svc n) n (next_retry env svc now n) (some code)
                message w e,
          ),
          refl,
          (ground arith, ground arith),
        )
      ]

  -- A round reads the row and tries the delivery if it is still pending.
  abbrev pub try_once : ℕ → Action ⊤
  try_once now = do
    found ← gets (λ w. first_where (has_id id) w.webhook_deliveries)
    elim found [
      | none ↦ pure tt
      | some d ↦ when (is_pending d.status) (ignore (deliver_one env svc now d secret url))
    ]

  unfoldable pub rounds : List ℕ → Action ⊤
  rounds [] = pure tt
  rounds (now ∷ times) = do try_once now; rounds times

  deliver_one-row :
      (now : ℕ) (d : WebhookDelivery) (w : World)
      → (validate_url env svc url w).0 ≡ ok tt
      → row_of id w ≡ (some d, [])
      → d.attempts < 5
      → (d' : WebhookDelivery) × (row_of id (deliver_one env svc now d secret url w).1
          ≡ (some d', []))
        × (d'.attempts ≡ d.attempts + 1)
        × Bounded d'
  unfolding deliver_one draw
  deliver_one-row now d w valid e few =
      let v = (validate_url env svc url w).1 in
      let w' : World = record v { draws = v.draws + 1 } in
      let reply =
        env.post v.draws url
          (("Content-Type", "application/json")
            ∷ ("X-Signature-256", sign_payload env svc secret d.payload)
            ∷ ("X-Event", d.event)
            ∷ ("X-Delivery-ID", d.id)
            ∷ [])
          d.payload in
      let (d', e', n, b) = settle-row now d reply w' (validate_url-Frame w ∙ e) few in
      let same : deliver_one env svc now d secret url w ≡ settle env svc now d reply w' =
        ground (arith, valid) in
      (d', ap (λ (r : Result ⊤ × World). row_of id r.1) same ∙ e', n, b)

  -- A delivery of which every attempt passes the screening of its URL is over after five attempts at
  -- most, whatever the client answers: after as many rounds as are left of five, its row says
  -- delivered or failed, and counts no more than five. (The database does not fail.)
  pub rounds-end :
      ((v : World) → (validate_url env svc url v).0 ≡ ok tt)
      → (times : List ℕ) (d : WebhookDelivery) (w : World) → row_of id w ≡ (some d, [])
      → Bounded d
      → 5 ≤ d.attempts + length times
      → (d' : WebhookDelivery) × (row_of id (rounds times w).1 ≡ (some d', []))
        × (is_pending d'.status ≡ false)
        × (d'.attempts ≤ 5)
  unfolding rounds
  rounds-end valid [] d w e b enough = (d, e, ground (arith, b, enough), b.0)
  rounds-end valid (now ∷ times) d w e b enough = elim (Bool-cases (is_pending d.status)) [
    | inl waits ↦
        let w' = (deliver_one env svc now d secret url w).1 in
        let (d', e', n, b') = deliver_one-row now d w (valid w) e (b.1 waits) in
        let (d'', e'', over, few) = rounds-end valid times d' w' e' b' (omega (arith, n, enough)) in
        let same : rounds (now ∷ times) w ≡ rounds times w' =
          ground (arith, ap (λ x. x.0) e, waits) in
        (d'', ap (λ (r : Result ⊤ × World). row_of id r.1) same ∙ e'', over, few)
    | inr over ↦
        let same : rounds (now ∷ times) w ≡ rounds times w =
          ground (arith, ap (λ x. x.0) e, over) in
        let (d'', e'', over', few) = ended times d w e over b.0 in
        (d'', ap (λ (r : Result ⊤ × World). row_of id r.1) same ∙ e'', over', few)
  ]
    where
      ended :
          (times : List ℕ) (d : WebhookDelivery) (w : World)
          → row_of id w ≡ (some d, [])
          → is_pending d.status ≡ false
          → d.attempts ≤ 5
          → (d' : WebhookDelivery) × (row_of id (rounds times w).1 ≡ (some d', []))
            × (is_pending d'.status ≡ false)
            × (d'.attempts ≤ 5)
      ended [] d w e over few = (d, e, over, few)
      ended (t ∷ times) d w e over few =
          let same : rounds (t ∷ times) w ≡ rounds times w =
            ground (arith, ap (λ x. x.0) e, over) in
          let (d'', e'', over', few') = ended times d w e over few in
          (d'', ap (λ (r : Result ⊤ × World). row_of id r.1) same ∙ e'', over', few')
