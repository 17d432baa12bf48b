-- ===== src/Repositories/Oauth.antt =====
-- internal/repositories/oauth_repository.go: links of accounts to identities of a provider.
use finn_api_go.Prelude.{ℕ, ◌+◌, ◌==◌, String, str_eq, Bool, ◌&&◌, Option, [], ◌∷◌, ◌++◌}
use finn_api_go.Models.{OauthIdentity}
use finn_api_go.Database.{
  World, Action, ⊤, ◌>>=◌, ◌>>◌, gets, query, raise_if, modify, duplicate_key,
}
use finn_api_go.Database.Table.{first_where, any_where, delete_where}
use finn_api_go.Repositories.Scope.{owned, require_owner}

abbrev pub is_identity : String → String → OauthIdentity → Bool
is_identity provider sub i = str_eq i.provider provider && str_eq i.provider_user_id sub

module _ (tid : String) where
  abbrev pub links : World → String → String → OauthIdentity → Bool
  links w provider sub i = owned tid w i.user_id && is_identity provider sub i

  abbrev pub linked_to : World → ℕ → String → OauthIdentity → Bool
  linked_to w uid provider i =
      owned tid w i.user_id && i.user_id == uid && str_eq i.provider provider

  -- The unique index on provider and id holds across tenants.
  unfoldable pub create : OauthIdentity → Action ⊤
  create i = do
    require_owner tid i.user_id
    query
    taken ← gets (λ w. any_where (is_identity i.provider i.provider_user_id) w.oauth_identities)
    raise_if taken duplicate_key
    modify (λ w. record w {
      oauth_identities = w.oauth_identities ++ record i { id = w.next_id } ∷ [];
      next_id = w.next_id + 1;
    })

  unfoldable pub find_by_provider_and_provider_user_id :
      String → String → Action (Option OauthIdentity)
  find_by_provider_and_provider_user_id provider sub = do
    query
    gets (λ w. first_where (links w provider sub) w.oauth_identities)

  unfoldable pub find_by_user_id_and_provider : ℕ → String → Action (Option OauthIdentity)
  find_by_user_id_and_provider uid provider = do
    query
    gets (λ w. first_where (linked_to w uid provider) w.oauth_identities)

  unfoldable pub delete_by_user_id_and_provider : ℕ → String → Action ⊤
  delete_by_user_id_and_provider uid provider = do
    query
    modify (λ w. record w {
      oauth_identities = delete_where (linked_to w uid provider) w.oauth_identities;
    })

  unfoldable pub delete_all_by_user_id : ℕ → Action ⊤
  delete_all_by_user_id uid = do
    query
    modify (λ w. record w {
      oauth_identities =
          delete_where (λ i. owned tid w i.user_id && i.user_id == uid) w.oauth_identities;
    })
