-- ===== src/Security.antt =====
-- The authentication of a client and the WS-Security header that it writes:
-- src/KDSoapClient/KDSoapAuthentication.cpp.
use kdsoap.Prelude.{
  Text, List, [], ◌∷◌, ◌++◌, Option, none, some, Bool, true, false, not, ◌&&◌, ◌||◌, if◌then◌else◌,
  codes, is_empty, Bool-cases, inl, inr, ◌≡◌, refl,
}
use kdsoap.Namespaces.{soap_security_extention, soap_security_utility}
use kdsoap.Xml.{
  Attribute, Call, Node, element, text, Nodes, nil, cons, start_element, end_element,
  write_attribute, write_characters, calls_of, calls_of_nodes,
}

-- The time as it is printed; `none` is a time that is not valid.
pub record Authentication : Type 0 where
  pub user : Text
  pub password : Text
  pub use_password_digest : Bool
  pub use_ws_username_token : Bool
  pub override_created_time : Option Text
  pub override_nonce : Text

abbrev pub new_authentication : Authentication
new_authentication = record {
  user = [];
  password = [];
  use_password_digest = true;
  use_ws_username_token = false;
  override_created_time = none;
  override_nonce = [];
}

-- What the header takes from outside: the nonce with its random number, the time, and the two
-- functions of Qt.
pub record Surroundings : Type 0 where
  pub random_nonce : Text
  pub current_time : Text
  pub to_base64 : Text → Text
  pub sha1 : Text → Text

unfoldable pub has_auth : Authentication → Bool
has_auth a = not (is_empty a.user) || not (is_empty a.password)

-- handleAuthenticationRequired: the user and the password that the authenticator is given, and
-- whether the reply has had them from now on.
pub handle_authentication_required : Authentication → Bool → Option (Text × Text) × Bool
unfolding has_auth
handle_authentication_required a auth_added =
    if has_auth a && not auth_added then (some (a.user, a.password), true) else (none, auth_added)

unfoldable pub has_ws_username_token_header : Authentication → Bool
unfolding has_auth
has_ws_username_token_header a = has_auth a && a.use_ws_username_token

pub nonce_of : Authentication → Surroundings → Text
nonce_of a s = if is_empty a.override_nonce then s.random_nonce else a.override_nonce

pub timestamp_of : Authentication → Surroundings → Text
timestamp_of a s = elim a.override_created_time [ none ↦ s.current_time | some t ↦ t ]

abbrev token_profile : Text
token_profile =
    codes "http://docs.oasis-open.org/wss/2004/01/oasis-200401-wss-username-token-profile-1.0"

password_type : Authentication → Text
password_type a =
    if a.use_password_digest
    then token_profile ++ codes "#PasswordDigest"
    else token_profile ++ codes "#PasswordText"

pub password_text : Authentication → Surroundings → Text
unfolding nonce_of timestamp_of
password_text a s =
    if a.use_password_digest
    then s.to_base64 (s.sha1 (nonce_of a s ++ (timestamp_of a s ++ a.password)))
    else a.password

unfoldable pub write_ws_username_token_header : Authentication → Surroundings → List Call
unfolding has_auth nonce_of timestamp_of password_type password_text
write_ws_username_token_header a s =
    if not (has_auth a)
    then []
    else start_element (some soap_security_extention) (codes "Security")
      ∷ start_element (some soap_security_extention) (codes "UsernameToken")
      ∷ start_element (some soap_security_extention) (codes "Nonce")
      ∷ write_characters (s.to_base64 (nonce_of a s))
      ∷ end_element
      ∷ start_element (some soap_security_utility) (codes "Created")
      ∷ write_characters (timestamp_of a s)
      ∷ end_element
      ∷ start_element (some soap_security_extention) (codes "Password")
      ∷ write_attribute (record { space = none; name = codes "Type"; content = password_type a })
      ∷ write_characters (password_text a s)
      ∷ end_element
      ∷ start_element (some soap_security_extention) (codes "Username")
      ∷ write_characters a.user
      ∷ end_element
      ∷ end_element
      ∷ end_element
      ∷ []

abbrev leaf : Text → Text → List Attribute → Text → Node
leaf ns name ats content =
    element (record { space = some ns; name = name; declarations = []; attributes = ats })
      (cons (text content) nil)

abbrev branch : Text → Nodes → Node
branch name ns =
    element
      (record {
        space = some soap_security_extention;
        name = name;
        declarations = [];
        attributes = [];
      })
      ns

-- The elements of the header.
unfoldable pub security_nodes : Authentication → Surroundings → Nodes
unfolding has_auth nonce_of timestamp_of password_type password_text
security_nodes a s =
    if not (has_auth a)
    then nil
    else cons
        (branch (codes "Security") (
          cons
            (branch (codes "UsernameToken") (
              cons (leaf soap_security_extention (codes "Nonce") [] (s.to_base64 (nonce_of a s))) (
                cons (leaf soap_security_utility (codes "Created") [] (timestamp_of a s)) (
                  cons
                    (leaf soap_security_extention (codes "Password")
                      (record { space = none; name = codes "Type"; content = password_type a } ∷ [])
                      (password_text a s))
                    (cons (leaf soap_security_extention (codes "Username") [] a.user) nil)))))
            nil))
        nil

pub write_ws_username_token_header-nodes :
    (a : Authentication) (s : Surroundings)
    → write_ws_username_token_header a s ≡ calls_of_nodes (security_nodes a s)
unfolding write_ws_username_token_header security_nodes calls_of
write_ws_username_token_header-nodes a s = elim (Bool-cases (has_auth a)) [
  | inl e ↦ rw e refl
  | inr e ↦ rw e refl
]
