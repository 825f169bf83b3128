-- ===== src/Tbql/Fields.antt =====
-- console/backend/tbconsole/search/fields.py: the fields that a query, a group-by or a rule can
-- name. Labels, groups, descriptions and default columns, which are for display, are left out, and
-- so is `aggregatable`, which is true of every field of the table.
pub mod Known
use turkey_bite.Prelude.{
  String, Bool, true, false, ◌||◌, not, Option, none, some, List, [], ◌∷◌, ◌++◌, map, keep,
  if◌then◌else◌, ◌==◌, nat_eq, list_eq, elem,
}
use turkey_bite.Text.{Text, text, strip, lower}

pub data FieldType : Type 0 where
  keyword ip date boolean : FieldType

pub record Field : Type 0 where
  pub name : Text
  pub type : FieldType
  pub aliases : List Text
  pub hierarchical : Bool
  pub identity : Bool

abbrev field_of : Bool → Bool → String → FieldType → List Text → Field
field_of h i n ty al = record {
  name = text n;
  type = ty;
  aliases = al;
  hierarchical = h;
  identity = i;
}

abbrev field : String → FieldType → List Text → Field
field = field_of false false

abbrev hierarchy : String → List Text → Field
hierarchy n al = field_of true false n keyword al

abbrev identity_field : String → FieldType → List Text → Field
identity_field = field_of false true

unfoldable pub first_fields : List Field
first_fields =
    field "@timestamp" date (text "time" ∷ text "timestamp" ∷ [])
    ∷ field "bite.type" keyword (text "type" ∷ [])
    ∷ field "bite.request" keyword (text "request" ∷ text "direction" ∷ [])
    ∷ field "bite.requested" keyword (text "domain" ∷ text "host.name" ∷ text "name" ∷ [])
    ∷ field "bite.registrable_domain" keyword (text "site" ∷ text "registrable" ∷ text "etld1" ∷ [])
    ∷ field "bite.searches" keyword (text "searches" ∷ [])
    ∷ field "bite.url" keyword (text "url" ∷ [])
    ∷ field "bite.response_code" keyword (text "rcode" ∷ text "response" ∷ [])
    ∷ field "bite.resolved_ips" ip (text "resolved" ∷ text "answer" ∷ [])
    ∷ field "bite.cname_chain" keyword (text "cname" ∷ [])
    ∷ field "bite.contexts" keyword (text "category" ∷ text "cat" ∷ text "contexts" ∷ [])
    ∷ hierarchy "bite.purpose" (text "purpose" ∷ [])
    ∷ hierarchy "bite.service" (text "service" ∷ [])
    ∷ hierarchy "bite.risk" (text "risk" ∷ [])
    ∷ field "bite.risk_severity" keyword (text "severity" ∷ text "risk_severity" ∷ [])
    ∷ field "bite.contexts_candidate" keyword (text "candidate" ∷ [])
    ∷ field "bite.contexts_suppressed" keyword (text "suppressed" ∷ [])
    ∷ field "bite.claims" keyword (text "claim" ∷ text "claims" ∷ [])
    ∷ field "bite.sources" keyword (text "source" ∷ text "list" ∷ [])
    ∷ field "bite.matched_on" keyword []
    ∷ []

unfoldable pub second_fields : List Field
second_fields =
    field "bite.match_source" keyword []
    ∷ field "bite.incidental" boolean (text "incidental" ∷ [])
    ∷ field "bite.unmapped_contexts" keyword (text "unmapped" ∷ [])
    ∷ field "bite.resolvers.quad9" keyword (text "quad9" ∷ [])
    ∷ field "bite.resolvers.cloudflare-security" keyword (text "cloudflare" ∷ [])
    ∷ field "bite.resolvers.cloudflare-family" keyword []
    ∷ identity_field "bite.client" ip (text "client" ∷ text "ip" ∷ text "src" ∷ [])
    ∷ identity_field "bite.client_ips" ip []
    ∷ identity_field "bite.client_user" keyword (text "user" ∷ text "username" ∷ [])
    ∷ identity_field "bite.client_mac" keyword (text "mac" ∷ [])
    ∷ identity_field "bite.client_hostname" keyword (text "hostname" ∷ [])
    ∷ identity_field "bite.client_hostname_short" keyword (text "host" ∷ [])
    ∷ identity_field "bite.client_hosts" keyword (text "ptrs" ∷ [])
    ∷ identity_field "bite.client_hosts_short" keyword []
    ∷ identity_field "bite.ptr" keyword (text "ptr" ∷ [])
    ∷ field "bite.ptr_status" keyword []
    ∷ field "bite.client_platform" keyword (text "platform" ∷ text "os" ∷ [])
    ∷ field "bite.client_browser" keyword (text "browser" ∷ [])
    ∷ field "bite.processed" date []
    ∷ []

unfoldable pub fields : List Field
unfolding first_fields second_fields
fields = first_fields ++ second_fields

-- Whether `_ALIASES` gets the key from this field.
abbrev pub is_named : Text → Field → Bool
is_named key f = key == lower f.name || elem key (map lower f.aliases)

-- The last entry for a key wins.
abbrev pub or_later : Option Field → Bool → Field → Option Field
or_later (some later) here f = some later
or_later none true f = some f
or_later none false f = none

abbrev pub find_field : (Field → Bool) → List Field → Option Field
find_field p [] = none
find_field p (f ∷ fs) = or_later (find_field p fs) (p f) f

-- BY_NAME.get(canonical) if canonical else None
abbrev pub by_name : Option Field → Option Field
by_name none = none
by_name (some f) = find_field (λ g. g.name == f.name) fields

unfoldable pub resolve : Text → Option Field
unfolding strip lower fields
resolve name = by_name (find_field (is_named (lower (strip name))) fields)

abbrev pub entity : Text
entity = text "entity"

abbrev pub entity_fields : List Text
entity_fields =
    text "bite.client_user"
    ∷ text "bite.client_hostname_short"
    ∷ text "bite.client_hosts_short"
    ∷ text "bite.client"
    ∷ []

abbrev pub add_missing : List Text → List Text → List Text
add_missing out names = out ++ keep (λ f. not (elem f out)) names

abbrev pub add_field : List Text → Option Field → Option (List Text)
add_field out none = none
add_field out (some f) = some (if elem f.name out then out else out ++ f.name ∷ [])

abbrev pub add_group : List Text → Text → Option (List Text)
add_group out name =
    if name == entity then some (add_missing out entity_fields) else add_field out (resolve name)

-- The loop of `group_fields`; none where it raises.
unfoldable pub group_from : List Text → List Text → Option (List Text)
unfolding resolve
group_from out [] = some out
group_from out (name ∷ names) = elim (add_group out name) [
  | none ↦ none
  | some out' ↦ group_from out' names
]

unfoldable pub group_fields : List Text → Option (List Text)
unfolding group_from
group_fields names = group_from [] names
