-- ===== src/Repositories/Passkeys.antt =====
-- internal/repositories/passkey_repository.go: registered authenticators.
use finn_api_go.Prelude.{
  ℕ, ◌+◌, ◌==◌, String, str_eq, Bool, true, false, not, ◌&&◌, ◌||◌, Option, some, List, [], ◌∷◌,
  ◌++◌,
}
use finn_api_go.Models.{PasskeyCredential}
use finn_api_go.Database.{
  World, Action, ⊤, ◌>>=◌, ◌>>◌, gets, query, raise_if, modify, duplicate_key, record_not_found,
}
use finn_api_go.Database.Table.{first_where, any_where, filter_where, update_where}
use finn_api_go.Repositories.Scope.{owned, require_owner}

-- `ORDER BY id DESC`: rows are kept in the order of their keys.
unfoldable pub newest_first : List PasskeyCredential → List PasskeyCredential
newest_first [] = []
newest_first (c ∷ cs) = newest_first cs ++ c ∷ []

module _ (tid : String) where
  -- The credential id is unique across tenants.
  unfoldable pub create : PasskeyCredential → Action ⊤
  create c = do
    require_owner tid c.user_id
    query
    taken ← gets (λ w.
        any_where (λ (o : PasskeyCredential). str_eq o.credential_id c.credential_id) w.passkeys)
    raise_if taken duplicate_key
    modify (λ w. record w {
      passkeys = w.passkeys ++ record c { id = w.next_id } ∷ [];
      next_id = w.next_id + 1;
    })

  abbrev pub has_credential : World → String → PasskeyCredential → Bool
  has_credential w cid c = owned tid w c.user_id && str_eq c.credential_id cid

  unfoldable pub find_by_credential_id : String → Action (Option PasskeyCredential)
  find_by_credential_id cid = do query; gets (λ w. first_where (has_credential w cid) w.passkeys)

  abbrev pub listed : World → ℕ → Bool → PasskeyCredential → Bool
  listed w uid include_revoked c =
      owned tid w c.user_id && c.user_id == uid && (include_revoked || not c.revoked)

  unfoldable pub list_by_user : ℕ → Bool → Action (List PasskeyCredential)
  list_by_user uid include_revoked = do
    query
    gets (λ w. newest_first (filter_where (listed w uid include_revoked) w.passkeys))

  abbrev pub row_of : World → ℕ → PasskeyCredential → Bool
  row_of w id c = owned tid w c.user_id && c.id == id

  unfoldable pub touch_usage : ℕ → ℕ → ℕ → Action ⊤
  touch_usage id sign_count used_at = do
    query
    known ← gets (λ w. any_where (row_of w id) w.passkeys)
    raise_if (not known) record_not_found
    modify (λ w. record w {
      passkeys =
          update_where (row_of w id)
            (λ c. record c { sign_count = sign_count; last_used_at = some used_at }) w.passkeys;
    })

  abbrev pub revoked_row : PasskeyCredential → PasskeyCredential
  revoked_row c = record c { revoked = true }

  abbrev pub to_revoke : World → ℕ → ℕ → PasskeyCredential → Bool
  to_revoke w id uid c = owned tid w c.user_id && c.id == id && c.user_id == uid && not c.revoked

  unfoldable pub revoke_by_id : ℕ → ℕ → Action ⊤
  revoke_by_id id uid = do
    query
    hit ← gets (λ w. any_where (to_revoke w id uid) w.passkeys)
    modify (λ w. record w { passkeys = update_where (to_revoke w id uid) revoked_row w.passkeys })
    raise_if (not hit) record_not_found

  unfoldable pub revoke_all_for_user : ℕ → Action ⊤
  revoke_all_for_user uid = do
    require_owner tid uid
    query
    modify (λ w. record w { passkeys = update_where (listed w uid false) revoked_row w.passkeys })
