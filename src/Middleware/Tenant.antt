-- ===== src/Middleware/Tenant.antt =====
-- internal/middleware/tenant.go: the tenant of a request that carries no identity yet.
-- Go's net package is a parameter.
use finn_api_go.Prelude.{
  ◌==◌, String, str_eq, is_empty, ◌<>◌, Bool, not, ◌&&◌, Option, none, some, List, [], ◌∷◌, leb,
  length, if◌then◌else◌, ◌≡◌, refl,
}
use finn_api_go.Prelude.Text.{split, trim_space, to_lower}
use finn_api_go.Repositories.Rbac.{contains}
use finn_api_go.Middleware.Access.{Context, default_tenant_id}

-- `net.SplitHostPort` (the host, if there is a port) and whether `net.ParseIP` reads an address.
pub record NetLib : Type 0 where
  pub split_host_port : String → Option String
  pub parse_ip : String → Bool

abbrev platforms : List String
platforms = "onrender.com" ∷ "fly.dev" ∷ "railway.app" ∷ "herokuapp.com" ∷ "vercel.app" ∷ []

abbrev common : List String
common =
    "www" ∷ "api" ∷ "auth" ∷ "app" ∷ "admin" ∷ "staging" ∷ "dev" ∷ "localhost" ∷ "finnapigo" ∷ []

-- The last two labels of three or more, joined.
unfoldable pub last_two : List String → String
last_two [] = ""
last_two (p ∷ []) = ""
last_two (p ∷ q ∷ []) = p <> "." <> q
last_two (p ∷ q ∷ r ∷ rest) = last_two (q ∷ r ∷ rest)

-- The subdomain among the labels of a host that is no address.
unfoldable pub subdomain : List String → String
subdomain [] = default_tenant_id
subdomain (sub ∷ more) =
    let parts = sub ∷ more in
    if not (leb 3 (length parts))
    then default_tenant_id
    else if contains (last_two parts) platforms && length parts == 3
    then default_tenant_id
    else if contains sub common
    then default_tenant_id
    else sub

-- `resolveTenant`, at the headers `X-Tenant-ID` and `X-Tenant-Slug` and the host.
unfoldable pub resolve_tenant : NetLib → String → String → String → String
resolve_tenant net id slug host =
    if not (is_empty (trim_space id))
    then trim_space id
    else if not (is_empty (trim_space slug))
    then trim_space slug
    else let h : String = elim (net.split_host_port host) [ none ↦ host | some h ↦ h ] in
      let name : String = to_lower (trim_space h) in
      if net.parse_ip name then default_tenant_id else subdomain (split b'.' name)

-- `TenantMiddleware`
unfoldable pub tenant_middleware : NetLib → String → String → String → Context → Context
tenant_middleware net id slug host ctx =
    let tid : String = resolve_tenant net id slug host in
    record ctx { tenant_id = if is_empty tid then default_tenant_id else tid }

-- An address has no port and no subdomain here.
abbrev plain : NetLib
plain = record { split_host_port = λ host. none; parse_ip = λ host. str_eq host "127.0.0.1" }

resolve_runs :
    (resolve_tenant plain " acme " "beta" "x.example.com" ≡ "acme")
    × (resolve_tenant plain "" "beta" "x.example.com" ≡ "beta")
    × (resolve_tenant plain "" "" "Acme.auth.example.com" ≡ "acme")
    × (resolve_tenant plain "" "" "finnapigo.onrender.com" ≡ "default")
    × (resolve_tenant plain "" "" "www.example.com" ≡ "default")
    × (resolve_tenant plain "" "" "127.0.0.1" ≡ "default")
    × (resolve_tenant plain "" "" "example.com" ≡ "default")
unfolding resolve_tenant subdomain last_two split trim_space to_lower contains
resolve_runs = (refl, refl, refl, refl, refl, refl, refl)
