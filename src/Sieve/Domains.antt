-- ===== src/Sieve/Domains.antt =====
-- What it means that a host lies under a domain, for `matches_domain` of src/libtb/sieve.
use turkey_bite.Prelude.{
  ◌≡◌, sym, ap, ◌∙◌, ◌↔◌, inl, inr, true, false, List, [], ◌∷◌, ◌++◌, arith, Bool-cases, or-eq-true,
  ◌==◌, list_eq, nat_eq, list_beq_iff, elem, any, All, All-map, any-eq-false, any_none, or-eq-false,
}
use turkey_bite.Text.{Text, split, join, ends_with}
use turkey_bite.Text.Labels.{
  ends_with_sound, ends_with-append, split-append, split-ne-nil, join-split, join-append,
}
use turkey_bite.Sieve.{matches_domain, host_ignored}

abbrev pub labels : Text → List Text
labels host = split b'.' host

-- The labels of `domain` are the last labels of `host`: the host is the domain or below it.
abbrev pub Under : Text → Text → Type 0
Under domain host = (above : List Text) × (above ++ labels domain ≡ labels host)

matches_domain_sound : (host domain : Text) → matches_domain host domain ≡ true → Under domain host
unfolding matches_domain
matches_domain_sound host domain h =
    elim (or-eq-true (host == domain) (ends_with (b'.' ∷ domain) host) h) [
      | inl same ↦ ([], ap labels (sym ((list_beq_iff host domain).0 same)))
      | inr below ↦
          let (r, e) = ends_with_sound (b'.' ∷ domain) host below in
          (labels r, sym (split-append b'.' r domain) ∙ ap labels e)
    ]

same_labels : (host domain : Text) → labels domain ≡ labels host → host ≡ domain
same_labels host domain e =
    sym (join-split b'.' host) ∙ ap (join b'.') (sym e) ∙ join-split b'.' domain

below_labels :
    (host domain label : Text) (above : List Text)
    → (label ∷ above) ++ labels domain ≡ labels host
    → host ≡ join b'.' (label ∷ above) ++ b'.' ∷ domain
below_labels host domain label above e =
    sym (join-split b'.' host)
    ∙ ap (join b'.') (sym e)
    ∙ join-append b'.' (label ∷ above) (labels domain) (λ p. cc) (split-ne-nil b'.' domain)
    ∙ ap (λ t. join b'.' (label ∷ above) ++ b'.' ∷ t) (join-split b'.' domain)

matches_domain_complete :
    (host domain : Text) → Under domain host → matches_domain host domain ≡ true
unfolding matches_domain
matches_domain_complete host domain ([], e) =
    rw ((list_beq_iff host domain).1 (same_labels host domain e))
matches_domain_complete host domain (label ∷ above, e) =
    let shape = below_labels host domain label above e in
    let ends : ends_with (b'.' ∷ domain) host ≡ true =
      rw shape (ends_with-append (join b'.' (label ∷ above)) (b'.' ∷ domain)) in
    ground (arith, ends)

-- A host matches a domain exactly when the domain's labels are the last labels of the host.
pub matches_domain_iff :
    (host domain : Text) → (matches_domain host domain ≡ true) ↔ Under domain host
matches_domain_iff host domain =
    (matches_domain_sound host domain, matches_domain_complete host domain)

-- A host that no ignored host equals and that lies under no ignored domain.
pub record Allowed (hosts domains : List Text) (host : Text) : Type 0 where
  pub unlisted : elem host hosts ≡ false
  pub apart : All (λ domain. ¬ Under domain host) domains

not-Under : (host domain : Text) → matches_domain host domain ≡ false → ¬ Under domain host
not-Under host domain h u = let t = matches_domain_complete host domain u in cc

no_match : (host domain : Text) → ¬ Under domain host → matches_domain host domain ≡ false
no_match host domain h = elim (Bool-cases (matches_domain host domain)) [
  | inl t ↦ absurd (h (matches_domain_sound host domain t))
  | inr f ↦ f
]

pub host_ignored_iff :
    (hosts domains : List Text) (host : Text)
    → (host_ignored hosts domains host ≡ false) ↔ Allowed hosts domains host
unfolding host_ignored
host_ignored_iff hosts domains host = (
  (λ h.
      let (u, a) = or-eq-false (elem host hosts) (any (λ d. matches_domain host d) domains) h in
      record {
        unlisted = u;
        apart =
            All-map (not-Under host) domains (any-eq-false (λ d. matches_domain host d) domains a);
      }),
  (λ w.
      let a =
        any_none (λ d. matches_domain host d) domains (All-map (no_match host) domains w.apart) in
      rw (w.unlisted, a)),
)
