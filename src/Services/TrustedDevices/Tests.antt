-- ===== src/Services/TrustedDevices/Tests.antt =====
-- Remembered devices at concrete inputs.
use finn_api_go.Prelude.{◌+◌, ◌*◌, ◌==◌, ◌≡◌, refl, true, false, ltb, ◌&&◌}
use finn_api_go.Database.{World, ok, err, record_not_found}
use finn_api_go.Database.Example.{acme}
use finn_api_go.Services.{day}
use finn_api_go.Services.Example.{env}
use finn_api_go.Services.TrustedDevices.{
  TrustedDeviceService, new_trusted_device_service, issue, validate, revoke,
}
use finn_api_go.Services.TrustedDevices.Trust.{validate-issue}

abbrev svc : TrustedDeviceService
svc = new_trusted_device_service true true

abbrev remembered : World
remembered = (issue env svc "acme" 100 7 "Phone" "1.2.3.4" acme).1

issue_runs : (issue env svc "acme" 100 7 "Phone" "1.2.3.4" acme).0 ≡ ok ("fresh", 100 + 30 * day)
unfolding issue finn_api_go.Services.TrustedDevices.device_token finn_api_go.Services.Support.draw
    finn_api_go.Repositories.TrustedDevices.create finn_api_go.Repositories.Scope.require_owner
    finn_api_go.Services.Support.audit
issue_runs = refl

validate-issue_example :
    (validate env svc "acme" 200 7 "fresh" remembered).0 ≡ ok (7 == 7 && ltb 200 (100 + svc.ttl))
unfolding issue finn_api_go.Services.TrustedDevices.device_token finn_api_go.Services.Support.draw
    finn_api_go.Repositories.TrustedDevices.create finn_api_go.Repositories.Scope.require_owner
    finn_api_go.Services.Support.audit
validate-issue_example =
    validate-issue env svc "acme" 100 7 "Phone" "1.2.3.4" "fresh" (100 + 30 * day) acme refl refl
      issue_runs 200 7 remembered refl refl refl

-- A revoked device is not trusted, and cannot be revoked again.
revoked_device :
    let w = (revoke env svc "acme" 150 10 7 remembered).1 in
    ((validate env svc "acme" 200 7 "fresh" w).0 ≡ ok false)
    × ((revoke env svc "acme" 160 10 7 w).0 ≡ err record_not_found)
unfolding validate finn_api_go.Repositories.TrustedDevices.find_by_device_hash
    finn_api_go.Database.query revoke finn_api_go.Repositories.TrustedDevices.revoke issue
    finn_api_go.Services.TrustedDevices.device_token finn_api_go.Services.Support.draw
    finn_api_go.Repositories.TrustedDevices.create finn_api_go.Repositories.Scope.require_owner
    finn_api_go.Services.Support.audit finn_api_go.Database.Table.first_where
    finn_api_go.Database.Table.update_where
revoked_device = (refl, refl)
