-- ===== src/Auth/Access.antt =====
-- Who gets access.
use kdsoap.Prelude.{
  index_of_char-append, take-append_length, drop-append_length, suc, Text, [], ◌∷◌, ◌++◌,
  Option-cases, some, Bool, true, inl, inr, ◌≡◌, ◌≢◌, refl, ◌∙◌, ap, ap₂, arith, take, drop, length,
  codes, starts_with, to_lower, lower_char, index_of_char, All,
}
use kdsoap.Auth.{
  Method, none_method, basic, ntlm, digest_md5, Credentials, no_credentials, parse_auth_line,
  c_string, check_user_pass, check_method, handle_http_auth,
}

module _ (from_base64 from_utf8 : Text → Text) (validate : Credentials → Text → Bool)
    (path : Text) where
  abbrev Granted : Type 0
  Granted = (c : Credentials) × (validate c path ≡ true)

  check_user_pass-Granted :
      (user_pass : Text)
      → check_user_pass from_base64 from_utf8 validate user_pass path ≡ true
      → Granted
  unfolding check_user_pass
  check_user_pass-Granted user_pass h = elim (Option-cases (index_of_char user_pass b':')) [
    | inl e ↦ absurd (cc (rw (e, check_user_pass) at h))
    | inr (i, e) ↦ (_, rw (e, check_user_pass) at h)
  ]

  check_method-Granted :
      (m : Method × Text) → check_method from_base64 from_utf8 validate m path ≡ true → Granted
  unfolding check_method
  check_method-Granted (none_method, v) h = (no_credentials, h)
  check_method-Granted (basic, v) h = check_user_pass-Granted (from_base64 v) h
  check_method-Granted (ntlm, v) h = absurd (cc h)
  check_method-Granted (digest_md5, v) h = absurd (cc h)

  -- Access is granted only where validateAuthentication accepts some credentials for the path,
  -- whatever the Authorization header is.
  pub handle_http_auth-Granted :
      (auth_value : Text)
      → handle_http_auth from_base64 from_utf8 validate auth_value path ≡ true
      → (c : Credentials) × (validate c path ≡ true)
  unfolding handle_http_auth
  handle_http_auth-Granted [] h = (no_credentials, h)
  handle_http_auth-Granted (a ∷ s) h = check_method-Granted (parse_auth_line (a ∷ s)) h

  -- A text without a zero byte is read whole.
  c_string-eq : (s : Text) → All (λ c. c ≢ 0) s → c_string s ≡ s
  unfolding c_string
  c_string-eq [] h = refl
  c_string-eq (c ∷ s) (k, h) = ground (arith, c_string-eq s h)

  check_user_pass_at :
      (user password : Text)
      → index_of_char (user ++ (b':' ∷ password)) b':' ≡ some (length user)
      → check_user_pass from_base64 from_utf8 validate (user ++ (b':' ∷ password)) path
        ≡ validate
            (record {
              user = from_utf8 (c_string (take (length user) (user ++ (b':' ∷ password))));
              password =
                  from_utf8 (c_string (drop (suc (length user)) (user ++ (b':' ∷ password))));
            })
            path
  unfolding check_user_pass
  check_user_pass_at user password e = rw (e, check_user_pass)

  -- The user and the password of a Basic authorization reach validateAuthentication as the texts that
  -- QString::fromUtf8 makes of the bytes that were sent, and its verdict is the result, where decoding
  -- of base64 is the inverse of the encoding, no byte of them is zero and the user has no colon.
  pub handle_http_auth-basic :
      (encode : Text → Text) (user password : Text)
      → ((t : Text) → from_base64 (encode t) ≡ t)
      → All (λ c. c ≢ b':') user
      → All (λ c. c ≢ 0) user
      → All (λ c. c ≢ 0) password
      → handle_http_auth from_base64 from_utf8 validate
          (codes "Basic " ++ encode (user ++ (b':' ∷ password)))
          path
        ≡ validate (record { user = from_utf8 user; password = from_utf8 password }) path
  unfolding handle_http_auth parse_auth_line check_method check_user_pass starts_with to_lower
      lower_char
  handle_http_auth-basic encode user password decode colon whole_user whole_password =
      ap (λ t. check_user_pass from_base64 from_utf8 validate t path)
        (decode (user ++ (b':' ∷ password)))
      ∙ check_user_pass_at user password (index_of_char-append user password b':' colon)
      ∙ ap₂ (λ u v. validate (record { user = from_utf8 u; password = from_utf8 v }) path)
          (ap c_string (take-append_length user (b':' ∷ password)) ∙ c_string-eq user whole_user)
          (ap c_string (drop-append_length user password b':')
            ∙ c_string-eq password whole_password)
