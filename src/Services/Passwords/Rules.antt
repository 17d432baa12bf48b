-- ===== src/Services/Passwords/Rules.antt =====
-- What internal/services/auth_service.go accepts as a new password.
use finn_api_go.Prelude.{◌≤◌, ◌≡◌, String, is_empty, false}
use finn_api_go.Prelude.Text.{to_lower, trim_space, contains_text}
use finn_api_go.Services.Support.{byte_len}

-- A user's name, as the check reads it.
abbrev pub clean : String → String
clean input = trim_space (to_lower input)

-- A name of 3 bytes at least is not part of the password, whatever the case of either.
abbrev pub Absent : String → String → Type 0
Absent pw input =
    is_empty (clean input) ≡ false
    → 3 ≤ byte_len (clean input)
    → contains_text (to_lower pw) (clean input) ≡ false
