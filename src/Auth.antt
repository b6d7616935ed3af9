-- ===== src/Auth.antt =====
-- HTTP authentication: parseAuthLine and handleHttpAuth of
-- src/KDSoapServer/KDSoapServerAuthInterface.cpp. A QString is the list of its bytes in UTF-8.
pub mod Access
mod Tests
use kdsoap.Prelude.{
  ℕ, suc, ◌+◌, Text, [], ◌∷◌, Option, none, some, Bool, true, false, ◌==◌, if◌then◌else◌, take,
  drop, codes, starts_with, to_lower, index_of_char, is_empty,
}

pub data Method : Type 0 where
  none_method basic ntlm digest_md5 : Method

-- KDSoapAuthentication's user and password.
pub record Credentials : Type 0 where
  pub user : Text
  pub password : Text

abbrev pub no_credentials : Credentials
no_credentials = record { user = []; password = [] }

-- str.startsWith(p, Qt::CaseInsensitive) for letters of ASCII.
abbrev pub starts_with_ci : Text → Text → Bool
starts_with_ci s p = starts_with (to_lower s) (to_lower p)

pub parse_auth_line : Text → Method × Text
parse_auth_line s =
    if starts_with_ci s (codes "Basic")
    then (basic, drop 6 s)
    else if starts_with_ci s (codes "NTLM")
    then (ntlm, drop 5 s)
    else if starts_with_ci s (codes "Digest")
    then (digest_md5, drop 7 s)
    else (none_method, [])

-- The bytes that QString::fromUtf8(s.constData()) reads of s: up to a zero byte.
unfoldable pub c_string : Text → Text
c_string [] = []
c_string (c ∷ s) = if c == 0 then [] else c ∷ c_string s

-- `from_base64` is QByteArray::fromBase64 and `from_utf8` what QString::fromUtf8 makes of bytes, which
-- replaces what is no UTF-8; `validate` is the server object's validateAuthentication.
module _ (from_base64 from_utf8 : Text → Text) (validate : Credentials → Text → Bool) where
  check_user_pass : Text → Text → Bool
  unfolding c_string
  check_user_pass user_pass path = elim (index_of_char user_pass b':') [
    | none ↦ false
    | some i ↦
        validate
          (record {
            user = from_utf8 (c_string (take i user_pass));
            password = from_utf8 (c_string (drop (suc i) user_pass));
          })
          path
  ]

  check_method : Method × Text → Text → Bool
  unfolding check_user_pass
  check_method (none_method, header_val) path = validate no_credentials path
  check_method (basic, header_val) path = check_user_pass (from_base64 header_val) path
  check_method (ntlm, header_val) path = false
  check_method (digest_md5, header_val) path = false

  pub handle_http_auth : Text → Text → Bool
  unfolding parse_auth_line check_method
  handle_http_auth auth_value path =
      if is_empty auth_value
      then validate no_credentials path
      else check_method (parse_auth_line auth_value) path
