-- ===== src/Services/Passkeys/Clone.antt =====
-- What a cloned authenticator meets in internal/services/passkey_service.go.
use finn_api_go.Prelude.{
  ℕ, ◌==◌, ◌≡◌, refl, ap, ◌∙◌, String, Bool, true, false, not, ◌&&◌, some, List, [], ◌∷◌, arith,
}
use finn_api_go.Models.{User, PasskeyCredential}
use finn_api_go.Database.{World, Result, err, query, tail_faults, passkey_credential_revoked}
use finn_api_go.Database.Table.{first_where, update_where, any_where}
use finn_api_go.Repositories.Scope.{is_user}
use finn_api_go.Repositories.Passkeys
use finn_api_go.Repositories.Passkeys.{has_credential, to_revoke, revoked_row}
use finn_api_go.Services.{Env, AuthService, TokenPair, UserProfile}
use finn_api_go.Services.Support.{audit}
use finn_api_go.Services.Passkeys.Sound.{clone_detected-err}
use finn_api_go.Services.Passkeys.{
  PasskeyService, Request, Credential, clone_detected, complete_authentication,
  row_id_by_credential, own_id,
}

module _ (env : Env) (svc : PasskeyService) (tid : String) (now uid : ℕ) where
  abbrev to_revoke_in : List User → ℕ → PasskeyCredential → Bool
  to_revoke_in users id c =
      any_where (is_user tid c.user_id) users && c.id == id && c.user_id == uid && not c.revoked

  none_to_revoke :
      (w : World) (id : ℕ) (rows : List PasskeyCredential)
      → any_where
          (to_revoke tid w id uid)
          (update_where (to_revoke tid w id uid) (revoked_row tid) rows)
        ≡ false
  unfolding any_where update_where
  none_to_revoke w id [] = refl
  none_to_revoke w id (c ∷ rows) = ground (arith, none_to_revoke w id rows)

  clone_detected-passkeys :
      (r : Request) (cred : Credential) (row : PasskeyCredential) (w : World)
      → w.faults ≡ []
      → first_where (has_credential tid w cred.id) w.passkeys ≡ some row
      → row.user_id ≡ uid
      → let v = (clone_detected env svc tid now uid r cred w).1 in
        (v.passkeys ≡ update_where (to_revoke tid w row.id uid) (revoked_row tid) w.passkeys)
        × (v.users ≡ w.users)
  unfolding clone_detected row_id_by_credential Passkeys.find_by_credential_id Passkeys.revoke_by_id
      query audit
  clone_detected-passkeys r cred row w sound e mine =
      let id = own_id env svc tid now uid (Passkeys.find_by_credential_id tid cred.id w).0 in
      let own : id ≡ row.id = ground (arith, sound, e, mine) in
      let after : World = record w { faults = tail_faults w.faults } in
      let there : (Passkeys.find_by_credential_id tid cred.id w).1 ≡ after =
        ground (arith, sound) in
      let done : ((Passkeys.revoke_by_id tid row.id uid after).1.passkeys
            ≡ update_where (to_revoke tid w row.id uid) (revoked_row tid) w.passkeys)
          × ((Passkeys.revoke_by_id tid row.id uid after).1.users ≡ w.users) =
        (ground (arith, sound), ground (arith, sound)) in
      (
        ap (λ v. (Passkeys.revoke_by_id tid id uid v).1.passkeys) there
            ∙ ap (λ i. (Passkeys.revoke_by_id tid i uid after).1.passkeys) own
            ∙ done.0,
        ap (λ v. (Passkeys.revoke_by_id tid id uid v).1.users) there
            ∙ ap (λ i. (Passkeys.revoke_by_id tid i uid after).1.users) own
            ∙ done.1,
      )

  -- An authenticator whose counter went back is refused, and its credential is revoked for good:
  -- `completeAuthentication` answers with the revocation, and afterwards no row of the user with the
  -- key of that credential's row is open. (The credential is the user's, and the database does not
  -- fail.)
  pub clone_revokes :
      (auth : AuthService) (r : Request) (user : User) (cred : Credential) (row : PasskeyCredential)
      (w : World)
      → w.faults ≡ []
      → cred.clone_warning ≡ true
      → first_where (has_credential tid w cred.id) w.passkeys ≡ some row
      → row.user_id ≡ uid
      → let (answer, v) = complete_authentication env svc tid now auth uid r user cred w in
        (answer ≡ err passkey_credential_revoked)
        × (any_where (to_revoke tid v row.id uid) v.passkeys ≡ false)
  unfolding complete_authentication
  clone_revokes auth r user cred row w sound cloned e mine =
      let c = clone_detected-passkeys r cred row w sound e mine in
      let v = (clone_detected env svc tid now uid r cred w).1 in
      let same : complete_authentication env svc tid now auth uid r user cred w
          ≡ clone_detected env svc tid now uid r cred w =
        ground (arith, cloned) in
      let gone : any_where (to_revoke tid v row.id uid) v.passkeys ≡ false =
        ap (λ us. any_where (to_revoke_in us row.id) v.passkeys) c.1
        ∙ ap (any_where (to_revoke tid w row.id uid)) c.0
        ∙ none_to_revoke w row.id w.passkeys in
      (
        ap (λ (a : Result (TokenPair × UserProfile) × World). a.0) same
            ∙ clone_detected-err env svc tid now uid r cred w,
        ap
              (λ (a : Result (TokenPair × UserProfile) × World).
                any_where (to_revoke tid a.1 row.id uid) a.1.passkeys)
              same
            ∙ gone,
      )
