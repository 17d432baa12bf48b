-- ===== src/Services/Refresh/Tests.antt =====
-- The properties of rotation and of ended sessions at concrete inputs.
use finn_api_go.Prelude.{◌≡◌, ◌≢◌, ◌≤◌, refl, true, false, some, [], ◌∷◌, arith}
use finn_api_go.Prelude.Dict.{lookup}
use finn_api_go.Models.{User, RefreshToken}
use finn_api_go.Store.{new_in_memory_store}
use finn_api_go.Store
use finn_api_go.Database.{World, ok, err, query, invalid_token}
use finn_api_go.Database.Table.{any_where, first_where, update_where, filter_where}
use finn_api_go.Database.Example.{token_row, acme}
use finn_api_go.Repositories.Scope.{scope_tenant, require_owner}
use finn_api_go.Repositories.Rbac.{get_user_permissions, permissions_of}
use finn_api_go.Repositories.Users
use finn_api_go.Repositories.Sessions
use finn_api_go.Repositories.RefreshTokens
use finn_api_go.Jwt.{base_claims}
use finn_api_go.Jwt.Keys.{sign, access_enterprise_claims}
use finn_api_go.Services.{TokenPair}
use finn_api_go.Services.Example.{env, svc}
use finn_api_go.Services.Support
use finn_api_go.Services.Issue
use finn_api_go.Services.Refresh
use finn_api_go.Services.Refresh.{hash_token}
use finn_api_go.Services.Refresh.Frame.{StateReads}
use finn_api_go.Services.Refresh.Rotation.{
  refresh_rotates, refresh_once, Rotated, MaySignIn, SessionStands,
}
use finn_api_go.Services.Refresh.Reuse.{reuse_isolates, Isolated, DeniedIfLive}

svc_reads : StateReads svc
svc_reads check e = ground (arith, e)

abbrev pair : TokenPair
pair = record { access_token = "signed:access"; refresh_token = "fresh"; expires_at = 115 }

refresh_runs : (Refresh.refresh env svc "acme" 100 "tok" "1.2.3.4" "ua" acme).0 ≡ ok pair
unfolding Refresh.refresh RefreshTokens.find_by_hash hash_token Refresh.refresh_row Users.find_by_id
    Refresh.check_session Sessions.find_by_id Refresh.rotate RefreshTokens.revoke Refresh.renew_pair
    Issue.issue_token_pair Issue.prepare Issue.issuable Issue.signed_permissions
    get_user_permissions Issue.session_for Issue.access_token Support.draw Sessions.touch
    Sessions.create scope_tenant require_owner query Issue.resolve_location sign
    access_enterprise_claims base_claims Issue.check_issued Issue.add_refresh_token
    Support.generate_opaque_token RefreshTokens.create Issue.maybe_notify_new_ip_login
    Support.store_call Store.set_nx Store.set Support.send Support.count_metric Support.audit
    first_where any_where update_where filter_where permissions_of lookup
refresh_runs = refl

refresh_rotates_example :
    (rt : RefreshToken) × (first_where
        (RefreshTokens.has_hash "acme" acme (hash_token env "tok"))
        acme.refresh_tokens
      ≡ some rt)
    × (rt.revoked ≡ false)
    × (100 ≤ rt.expires_at)
    × SessionStands env svc "acme" 100 rt acme
    × (u : User) × MaySignIn env svc "acme" 100 rt u acme
    × Rotated env svc "acme" 100 rt u pair acme
        (Refresh.refresh env svc "acme" 100 "tok" "1.2.3.4" "ua" acme).1
refresh_rotates_example =
    refresh_rotates env svc "acme" 100 svc_reads "tok" "1.2.3.4" "ua" pair acme refresh_runs

-- The store is flushed in between.
refresh_once_example :
    (Refresh.refresh env svc "acme" 200 "tok" "5.6.7.8" "other"
      (record (Refresh.refresh env svc "acme" 100 "tok" "1.2.3.4" "ua" acme).1 {
        store = some new_in_memory_store;
        faults = [];
      })).0
    ≢ ok pair
refresh_once_example =
    refresh_once env svc "acme" 100 200 "tok" "1.2.3.4" "5.6.7.8" "ua" "other" pair pair acme
      (some new_in_memory_store) [] svc_reads refresh_runs

-- The first token of the two is dead.
abbrev dead_row : RefreshToken
dead_row = record token_row { revoked = true }

abbrev reused : World
reused = record acme {
  refresh_tokens = dead_row ∷ record token_row { id = 2; token_hash = "sha:more" } ∷ [];
}

dead_row_found :
    first_where (RefreshTokens.has_hash "acme" reused (hash_token env "tok")) reused.refresh_tokens
    ≡ some dead_row
unfolding first_where any_where hash_token
dead_row_found = refl

reuse_isolates_example :
    let (r, w') = Refresh.refresh env svc "acme" 100 "tok" "1.2.3.4" "ua" reused in
    (r ≡ err invalid_token)
    × Isolated "acme" dead_row reused w'
    × DeniedIfLive env svc "acme" 100 dead_row reused w'
reuse_isolates_example =
    reuse_isolates env svc "acme" 100 "tok" "1.2.3.4" "ua" dead_row reused refl dead_row_found refl
      refl refl
