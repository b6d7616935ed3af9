-- ===== src/QName/Parsing.antt =====
-- Qualified names printed and read back.
use kdsoap.Prelude.{
  Text, List, [], ◌∷◌, ◌++◌, false, Bool-cases, inl, inr, eq_text, ◌≡◌, ◌≢◌, ◌∙◌, ap, ap₂, All,
  eq_text_refl, is_empty, index_of_char-append, index_of_char-none, take-append_length,
  drop-append_length,
}
use kdsoap.QName.{
  QName, Declaration, new_name, parse, qname, declare, from_soap_value, to_soap_value, read_within,
}

abbrev NoColon : Text → Type 0
NoColon s = All (λ c. c ≢ b':') s

parse_plain : (q : QName) (s : Text) → NoColon s → parse q s ≡ record q { local_name = s }
unfolding parse
parse_plain q s h = rw (index_of_char-none s b':' h, parse)

parse_prefixed :
    (q : QName) (p s : Text)
    → NoColon p
    → parse q (p ++ (b':' ∷ s)) ≡ record q { prefix = p; local_name = s }
unfolding parse
parse_prefixed q p s h =
    rw (index_of_char-append p s b':' h, parse)
      (λ i. record q {
        prefix = take-append_length p (b':' ∷ s) i;
        local_name = drop-append_length p s b':' i;
      })

-- What a name prints is parsed back by a new name, but for the namespace, where prefix and local
-- name have no colon.
pub parse-qname :
    (name_space prefix local_name : Text)
    → All (λ c. c ≢ b':') prefix
    → All (λ c. c ≢ b':') local_name
    → parse new_name
        (qname (record { name_space = name_space; prefix = prefix; local_name = local_name }))
      ≡ record { name_space = []; prefix = prefix; local_name = local_name }
unfolding qname
parse-qname n [] l hp hl = parse_plain new_name l hl
parse-qname n (c ∷ p) l hp hl = parse_prefixed new_name (c ∷ p) l hp

declared :
    (q : QName)
    → is_empty q.prefix ≡ false
    → is_empty q.name_space ≡ false
    → (to_soap_value q).local_declarations ≡ (q.prefix, q.name_space) ∷ []
unfolding to_soap_value
declared q e f = rw (e, f)

qname_prefixed :
    (q : QName) → is_empty q.prefix ≡ false → qname q ≡ q.prefix ++ (b':' ∷ q.local_name)
unfolding qname
qname_prefixed q e = rw e

-- The last declaration of the prefix counts.
declare_last :
    (name_space prefix local_name uri : Text) (outer : List Declaration)
    → declare
        (record { name_space = name_space; prefix = prefix; local_name = local_name })
        (outer ++ (prefix, uri) ∷ [])
      ≡ record { name_space = uri; prefix = prefix; local_name = local_name }
unfolding declare
declare_last name_space prefix local_name uri [] = rw (eq_text_refl prefix)
declare_last name_space prefix local_name uri ((p, u) ∷ outer) =
    elim (Bool-cases (eq_text p prefix)) [
      | inl e ↦ rw e (declare_last u prefix local_name uri outer)
      | inr e ↦ rw e (declare_last name_space prefix local_name uri outer)
    ]

-- The value that a name is converted to gives the name back, namespace included, once its
-- declarations are behind those in whose scope it stands, as the reader puts them, whatever those
-- are, where the prefix and the namespace of the name are not empty and its prefix and its local name
-- have no colon; but as toSoapValue makes it, it gives the name without its namespace.
pub from_soap_value-to_soap_value :
    (q : QName) (outer : List Declaration)
    → is_empty q.prefix ≡ false
    → is_empty q.name_space ≡ false
    → All (λ c. c ≢ b':') q.prefix
    → All (λ c. c ≢ b':') q.local_name
    → (from_soap_value (read_within outer (to_soap_value q)) ≡ q)
      × (from_soap_value (to_soap_value q) ≡ record q { name_space = [] })
unfolding from_soap_value to_soap_value read_within declare
from_soap_value-to_soap_value q outer some_prefix some_space hp hl =
    let parsed = parse-qname q.name_space q.prefix q.local_name hp hl in
    (
      ap₂ declare parsed (ap (λ ds. outer ++ ds) (declared q some_prefix some_space))
          ∙ declare_last [] q.prefix q.local_name q.name_space outer,
      parsed,
    )

-- A name with a prefix that is assigned a text without a colon prints its old prefix before that
-- text.
pub qname-parse_again :
    (q : QName) (s : Text)
    → is_empty q.prefix ≡ false
    → All (λ c. c ≢ b':') s
    → qname (parse q s) ≡ q.prefix ++ (b':' ∷ s)
qname-parse_again q s some_prefix h =
    ap qname (parse_plain q s h) ∙ qname_prefixed (record q { local_name = s }) some_prefix
