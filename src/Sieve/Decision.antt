-- ===== src/Sieve/Decision.antt =====
-- When the sieve of src/libtb/sieve keeps a DNS packet, said without its code.
use turkey_bite.Prelude.{
  ◌≡◌, refl, ◌↔◌, inl, inr, Bool, true, false, ◌&&◌, not, Option, none, some, List, [], ◌∷◌, arith,
  or-eq-true, ap, ◌==◌, list_eq, nat_eq, list_beq_iff, elem, guard_passed, pass_guard,
}
use mathlib.Core.Bool.{and-false}
use turkey_bite.Text.{Text, text}
use turkey_bite.Json.{Json, str, get, dig, str_in}
use turkey_bite.Sieve.{Filters, normalize_host, option_in, name_ignored, question, dns}
use turkey_bite.Sieve.Domains.{Allowed, host_ignored_iff}

-- The value is no string of the list.
abbrev pub NotIn : List Text → Json → Type 0
NotIn texts v = (s : Text) → v ≡ str s → elem s texts ≡ false

-- A name that is there and normalises satisfies a predicate.
abbrev pub EachName : (Text → Type 0) → Json → Type 0
EachName P v = (h : Text) → normalize_host v ≡ some h → P h

abbrev pub client_path : List Text
client_path = text "client" ∷ text "ip" ∷ []

abbrev pub destination_path : List Text
destination_path = text "destination" ∷ text "ip" ∷ []

abbrev pub direction_path : List Text
direction_path = text "network" ∷ text "direction" ∷ []

abbrev pub leaving : List Text
leaving = text "outbound" ∷ text "egress" ∷ []

-- What a DNS packet has to satisfy.
pub record DnsKept (f : Filters) (packet : Json) : Type 0 where
  pub status : f.config.drop_error_packets ≡ true → get (text "status") packet ≡ str (text "OK")
  pub client : NotIn f.config.ignore_clients (dig packet client_path)
  pub destination : NotIn f.config.ignore_clients (dig packet destination_path)
  pub direction : f.config.drop_replies ≡ true → NotIn leaving (dig packet direction_path)
  pub registered_domain :
      EachName (λ h. elem h f.ignore_domains ≡ false) (dig packet (question "registered_domain"))
  pub etld_plus_one :
      EachName (λ h. elem h f.ignore_domains ≡ false) (dig packet (question "etld_plus_one"))
  pub resource : EachName (Allowed f.ignore_hosts f.ignore_domains) (get (text "resource") packet)
  pub name : EachName (Allowed f.ignore_hosts f.ignore_domains) (dig packet (question "name"))

pub str_in-eq-false_iff : (v : Json) (texts : List Text) → (str_in v texts ≡ false) ↔ NotIn texts v
str_in-eq-false_iff (str s) texts = ((λ h t e. cc), (λ h. h s refl))
str_in-eq-false_iff _ texts = ((λ h t e. absurd (let q : ⊥ = cc in q)), (λ h. refl))

option_in-eq-false_iff :
    (o : Option Text) (texts : List Text)
    → (option_in o texts ≡ false) ↔ ((h : Text) → o ≡ some h → elem h texts ≡ false)
option_in-eq-false_iff none texts = ((λ h t e. absurd (let q : ⊥ = cc in q)), (λ h. refl))
option_in-eq-false_iff (some s) texts = ((λ h t e. cc), (λ h. h s refl))

pub name_ignored-eq-false_iff :
    (hosts domains : List Text) (o : Option Text)
    → (name_ignored hosts domains o ≡ false) ↔ ((h : Text) → o ≡ some h → Allowed hosts domains h)
name_ignored-eq-false_iff hosts domains none =
    ((λ h t e. absurd (let q : ⊥ = cc in q)), (λ h. refl))
name_ignored-eq-false_iff hosts domains (some s) = (
  (λ h t e. let same : s ≡ t = cc in rw same at ((host_ignored_iff hosts domains s).0 h)),
  (λ h. (host_ignored_iff hosts domains s).1 (h s refl)),
)

-- `data.get('status') not in valids`
status_ok : (v : Json) → str_in v (text "OK" ∷ []) ≡ true → v ≡ str (text "OK")
status_ok (str s) h = elim (or-eq-true (s == text "OK") false h) [
  | inl same ↦ ap str ((list_beq_iff s (text "OK")).0 same)
  | inr never ↦ cc
]
status_ok _ h = cc

unless_not : (a b : Bool) → (a && not b) ≡ false → a ≡ true → b ≡ true
unless_not a b h k = ground arith

unless_right : (a b : Bool) → (a && b) ≡ false → b ≡ true → a ≡ false
unless_right a b h k = ground arith

dns_sound : (f : Filters) (packet : Json) → dns f packet ≡ true → DnsKept f packet
unfolding dns
dns_sound f packet h =
    let (status, h1) = guard_passed _ _ h in
    let (client, h2) = guard_passed _ _ h1 in
    let (destination, h3) = guard_passed _ _ h2 in
    let (direction, h4) = guard_passed _ _ h3 in
    let (registered, h5) = guard_passed _ _ h4 in
    let (etld, h6) = guard_passed _ _ h5 in
    let (resource, h7) = guard_passed _ _ h6 in
    let (name, _) = guard_passed _ _ h7 in
    record {
      status = λ on. status_ok _ (unless_not _ _ status on);
      client = (str_in-eq-false_iff _ _).0 client;
      destination = (str_in-eq-false_iff _ _).0 destination;
      direction = λ on. (str_in-eq-false_iff _ _).0 (unless_right _ _ direction on);
      registered_domain = (option_in-eq-false_iff _ _).0 registered;
      etld_plus_one = (option_in-eq-false_iff _ _).0 etld;
      resource = (name_ignored-eq-false_iff _ _ _).0 resource;
      name = (name_ignored-eq-false_iff _ _ _).0 name;
    }

not_both : (a b : Bool) → (b ≡ true → a ≡ false) → (a && b) ≡ false
not_both a true h = rw (h refl)
not_both a false h = and-false a

status_test :
    (a : Bool) (v : Json)
    → (a ≡ true → v ≡ str (text "OK"))
    → (a && not (str_in v (text "OK" ∷ []))) ≡ false
status_test true v h = rw (h refl)
status_test false v h = refl

dns_complete : (f : Filters) (packet : Json) → DnsKept f packet → dns f packet ≡ true
unfolding dns
dns_complete f packet k = pass_guard _ _ (status_test _ _ k.status) (
    pass_guard _ _ ((str_in-eq-false_iff _ _).1 k.client) (
      pass_guard _ _ ((str_in-eq-false_iff _ _).1 k.destination) (
        pass_guard _ _ (not_both _ _ (λ on. (str_in-eq-false_iff _ _).1 (k.direction on))) (
          pass_guard _ _ ((option_in-eq-false_iff _ _).1 k.registered_domain) (
            pass_guard _ _ ((option_in-eq-false_iff _ _).1 k.etld_plus_one) (
              pass_guard _ _ ((name_ignored-eq-false_iff _ _ _).1 k.resource)
                (pass_guard _ _ ((name_ignored-eq-false_iff _ _ _).1 k.name) refl)))))))

-- A DNS packet is kept exactly when: its status is OK, if bad packets are dropped; neither its
-- client's nor its destination's address is ignored; it does not leave, if replies are dropped;
-- neither of its registered domains is ignored; and neither its resource nor the name that it asks
-- for, normalised, is an ignored host or lies under an ignored domain.
pub dns_iff : (f : Filters) (packet : Json) → (dns f packet ≡ true) ↔ DnsKept f packet
dns_iff f packet = (dns_sound f packet, dns_complete f packet)
