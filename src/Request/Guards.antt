-- ===== src/Request/Guards.antt =====
-- What stands between a request and the server object.
use kdsoap.Prelude.{
  Text, Option, Option-cases, none, some, Bool, true, false, not, if◌then◌else◌, inl, inr, ◌≡◌, ◌≢◌,
  ◌↔◌, refl, arith, eq_text,
}
use kdsoap.Headers.{Headers}
use kdsoap.Http.{is_path_secure}
use kdsoap.Platform.{Qt}
use kdsoap.Request.{
  SoapVersion, Site, Outcome, denied, refused, not_implemented, make_call, handle_post, handle_get,
  wsdl_or_file, handle_other, soap_version_and_action, is_authorized, serve, request_path,
  path_and_query, handle_request,
}

module _ (qt : Qt) {M : Type 0} (site : Site M) where
  -- Not an answer of the checks.
  abbrev Served : Outcome M → Type 0
  Served o = (o ≢ denied) × (o ≢ refused)

  make_call-Served :
      (m : M) (path : Text) (s : SoapVersion × Text) → Served (make_call qt site m path s)
  unfolding make_call
  make_call-Served m path (version, action) = (λ h. ground arith, λ h. ground arith)

  handle_post-Served :
      (headers : Headers) (path body : Text) → Served (handle_post qt site headers path body)
  unfolding handle_post
  handle_post-Served headers path body = elim (Option-cases (site.xml_to_message body)) [
    | inl e ↦ rw (e, handle_post) ((λ h. cc), (λ h. cc))
    | inr (m, e) ↦ rw (e, handle_post) (make_call-Served m path (soap_version_and_action headers))
  ]

  wsdl_or_file-Served : (w : Option Text) (path : Text) → Served (wsdl_or_file qt site w path)
  unfolding wsdl_or_file
  wsdl_or_file-Served none path = ((λ h. cc), (λ h. cc))
  wsdl_or_file-Served (some t) path = ((λ h. cc), (λ h. cc))

  if-Served : (b : Bool) (o p : Outcome M) → Served o → Served p → Served (if b then o else p)
  if-Served true o p h k = h
  if-Served false o p h k = k

  handle_get-Served : (path : Text) → Served (handle_get qt site path)
  unfolding handle_get
  handle_get-Served path =
      if-Served (eq_text path site.wsdl_path_in_url) _ _ (wsdl_or_file-Served site.wsdl_file path)
        ((λ h. cc), (λ h. cc))

  handle_other-Served :
      (headers : Headers) (kind body : Text) → Served (handle_other qt site headers kind body)
  unfolding handle_other
  handle_other-Served headers kind body = elim (Option-cases site.process_custom_verb_request) [
    | inl e ↦ rw (e, handle_other) ((λ h. cc), (λ h. cc))
    | inr (f, e) ↦ elim (Option-cases (f kind body headers)) [
      | inl g ↦ rw (e, handle_other) (rw g ((λ h. cc), (λ h. cc)))
      | inr (a, g) ↦ rw (e, handle_other) (rw g ((λ h. cc), (λ h. cc)))
    ]
  ]

  not_implemented-Served : Served not_implemented
  not_implemented-Served = ((λ h. cc), (λ h. cc))

  serve-Served :
      (headers : Headers) (kind path body : Text) → Served (serve qt site headers kind path body)
  unfolding serve
  serve-Served headers kind path body = if-Served _ _ _ (handle_other-Served headers kind body) (
      if-Served _ _ _ not_implemented-Served
        (if-Served _ _ _ (handle_get-Served path) (handle_post-Served headers path body)))

  -- A request is denied exactly when its path is not secure, and refused with 401 exactly when its
  -- path is secure and it is not authorized; so every other outcome is behind both checks.
  pub handle_request-refusals :
      (headers : Headers) (body : Text)
      → ((handle_request qt site headers body ≡ denied)
          ↔ (is_path_secure (request_path qt site headers) ≡ false))
        × ((handle_request qt site headers body ≡ refused) ↔ (
            (is_path_secure (request_path qt site headers) ≡ true)
            × (is_authorized qt site headers (path_and_query qt site headers) ≡ false)))
  unfolding handle_request
  handle_request-refusals headers body =
      checks (is_path_secure (request_path qt site headers))
        (is_authorized qt site headers (path_and_query qt site headers)) _
        (serve-Served headers _ _ body)
    where
      checks :
          (a b : Bool) (o : Outcome M)
          → Served o
          → (((if not a then denied else if not b then refused else o) ≡ denied) ↔ (a ≡ false))
            × (((if not a then denied else if not b then refused else o) ≡ refused)
                ↔ ((a ≡ true) × (b ≡ false)))
      checks false b o (h, k) =
          (((λ e. refl), (λ e. refl)), ((λ e. absurd (cc e)), (λ e. absurd (cc (e.0)))))
      checks true false o (h, k) =
          (((λ e. absurd (cc e)), (λ e. absurd (cc e))), ((λ e. (refl, refl)), (λ e. refl)))
      checks true true o (h, k) = (
        ((λ e. absurd (h e)), (λ e. absurd (cc e))),
        ((λ e. absurd (k e)), (λ e. absurd (cc (e.1)))),
      )
