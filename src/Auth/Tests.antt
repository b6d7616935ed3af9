-- ===== src/Auth/Tests.antt =====
-- Credentials at work.
use kdsoap.Prelude.{
  Text, Bool, true, ◌&&◌, ◌≡◌, refl, arith, codes, eq_text, starts_with, to_lower, index_of_char,
}
use kdsoap.Auth.{Credentials, handle_http_auth}
use kdsoap.Auth.Access.{handle_http_auth-Granted, handle_http_auth-basic}

-- One user is known, and any path is open to it.
abbrev known : Credentials → Text → Bool
known c path = eq_text c.user (codes "me") && eq_text c.password (codes "pw")

abbrev same : Text → Text
same t = t

handle_http_auth-basic_example :
    handle_http_auth same same known (codes "Basic me:pw") (codes "/")
    ≡ known (record { user = codes "me"; password = codes "pw" }) (codes "/")
handle_http_auth-basic_example =
    handle_http_auth-basic same same known (codes "/") same (codes "me") (codes "pw") (λ t. refl)
      ((λ e. absurd (omega arith)), ((λ e. absurd (omega arith)), tt))
      ((λ e. absurd (omega arith)), ((λ e. absurd (omega arith)), tt))
      ((λ e. absurd (omega arith)), ((λ e. absurd (omega arith)), tt))

me_granted : handle_http_auth same same known (codes "basic me:pw") (codes "/") ≡ true
unfolding handle_http_auth starts_with to_lower index_of_char eq_text
me_granted = refl

handle_http_auth-Granted_example : (c : Credentials) × (known c (codes "/") ≡ true)
handle_http_auth-Granted_example =
    handle_http_auth-Granted same same known (codes "/") (codes "basic me:pw") me_granted
