-- ===== src/Services/Accounts/Unique.antt =====
-- `Register` of internal/services/auth_service.go gives an address or a name to one account only.
use finn_api_go.Prelude.{◌≡◌, String, str_eq, Bool, false, ◌&&◌, ◌||◌, List, [], ◌∷◌}
use finn_api_go.Models.{User}
use finn_api_go.Database.{World}
use finn_api_go.Database.Frame.{Frame}
use finn_api_go.Database.Table.{any_where}
use finn_api_go.Repositories.Users

-- Two accounts of one tenant with the same address or the same name.
abbrev pub clash : User → User → Bool
clash u v =
    str_eq u.tenant_id v.tenant_id && (str_eq u.email v.email || str_eq u.username v.username)

-- No two of them clash.
abbrev pub IsUnique : List User → Type 0
IsUnique [] = Unit
IsUnique (u ∷ us) = (any_where (clash u) us ≡ false) × IsUnique us

-- The accounts are as before, or one has come that clashes with none.
abbrev Unique : World → Type 0
Unique w = IsUnique w.users

-- What the index of the table looks for.
abbrev taken_by : String → User → User → Bool
taken_by tid u v =
    str_eq v.tenant_id tid && (str_eq v.email u.email || str_eq v.username u.username)
