-- ===== src/Psl/Longest.antt =====
-- The rule that prevails in `public_suffix` of src/libtb/psl, against the algorithm which the
-- Public Suffix List documents.
use turkey_bite.Prelude.{
  and_true, or_true_right, ◌≤◌, ◌≡◌, ◌≢◌, refl, ap, ◌∙◌, ◌↔◌, inl, inr, true, false, not, Option,
  none, some, List, [], ◌∷◌, ◌++◌, arith, Bool-cases, Option-cases, or-eq-true, and-eq-true, nat_eq,
  list_eq, elem, length, length-append,
}
use turkey_bite.Text.{Text, split, join}
use turkey_bite.Json.{str}
use turkey_bite.Psl.{
  Rules, is_empty, trim_host, exception_suffix, is_rule, longest_rule, last_label, or_else,
  suffix_of, suffix_of_trimmed, public_suffix,
}

-- A rule of the list matches these labels: they spell an exact rule, or all but the first spell
-- the parent of a wildcard.
pub data Matches (r : Rules) : List Text → Type 0 where
  exact :
      (label : Text) (rest : List Text)
      → elem (join b'.' (label ∷ rest)) r.rules ≡ true
      → Matches r (label ∷ rest)
  wildcard :
      (label : Text) (rest : List Text)
      → join b'.' rest ≢ []
      → elem (join b'.' rest) r.wildcards ≡ true
      → Matches r (label ∷ rest)

-- No exception of the list spells the last labels of these.
abbrev pub NoException : Rules → List Text → Type 0
NoException r labels =
    (above : List Text) (label : Text) (rest : List Text)
    → above ++ label ∷ rest ≡ labels
    → elem (join b'.' (label ∷ rest)) r.exceptions ≡ false

abbrev pub NoMatch : Rules → List Text → Type 0
NoMatch r labels = (above rule : List Text) → above ++ rule ≡ labels → ¬ Matches r rule

-- The text spells the matching last labels, and no other matching ones are more.
pub record Prevails (r : Rules) (labels : List Text) (suffix : Text) : Type 0 where
  pub above : List Text
  pub rule : List Text
  pub parts : above ++ rule ≡ labels
  pub matched : Matches r rule
  pub spelled : suffix ≡ join b'.' rule
  pub longest :
      (above' rule' : List Text)
      → above' ++ rule' ≡ labels
      → Matches r rule'
      → length rule' ≤ length rule

-- The documented algorithm: an exception prevails, and its suffix is the exception without its
-- first label; then the matching rule with the most labels; then the rule `*`.
pub data Suffix (r : Rules) (labels : List Text) (suffix : Text) : Type 0 where
  by_exception :
      (above : List Text) (label : Text) (rest : List Text)
      → above ++ label ∷ rest ≡ labels
      → elem (join b'.' (label ∷ rest)) r.exceptions ≡ true
      → suffix ≡ join b'.' rest
      → Suffix r labels suffix
  by_rule : NoException r labels → Prevails r labels suffix → Suffix r labels suffix
  by_default :
      NoException r labels → NoMatch r labels → suffix ≡ last_label labels → Suffix r labels suffix

not_empty_iff : (s : Text) → (not (is_empty s) ≡ true) ↔ (s ≢ [])
not_empty_iff [] = ((λ h. absurd (let q : ⊥ = cc in q)), (λ h. absurd (h refl)))
not_empty_iff (c ∷ s) = ((λ h e. cc), (λ h. refl))

is_rule_sound : (r : Rules) (ls : List Text) → is_rule r ls ≡ true → Matches r ls
unfolding is_rule
is_rule_sound r [] h = absurd (let q : ⊥ = cc in q)
is_rule_sound r (label ∷ rest) h = elim (or-eq-true _ _ h) [
  | inl e ↦ exact label rest e
  | inr w ↦
      let (n, e) = and-eq-true _ _ w in wildcard label rest ((not_empty_iff (join b'.' rest)).0 n) e
]

is_rule_complete : (r : Rules) (ls : List Text) → Matches r ls → is_rule r ls ≡ true
unfolding is_rule
is_rule_complete r ls (exact label rest e) = rw e
is_rule_complete r ls (wildcard label rest n e) =
    or_true_right (elem (join b'.' (label ∷ rest)) r.rules) _
      (and_true (not (is_empty (join b'.' rest))) _ ((not_empty_iff (join b'.' rest)).1 n) e)

no_rule_nil : (r : Rules) → ¬ Matches r []
no_rule_nil r m = let h = is_rule_complete r [] m in unfold is_rule in cc

longest_below :
    (r : Rules) (label : Text) (rest : List Text) {s : Text} (p : Prevails r rest s)
    → is_rule r (label ∷ rest) ≡ false
    → (above' rule' : List Text) → above' ++ rule' ≡ label ∷ rest
    → Matches r rule'
    → length rule' ≤ length p.rule
longest_below r label rest p f [] rule' e m =
    let t = is_rule_complete r rule' m in
    let t' : is_rule r (label ∷ rest) ≡ true = rw e at t in absurd (let q : ⊥ = cc in q)
longest_below r label rest p f (x ∷ above') rule' e m = p.longest above' rule' (cc) m

longest_rule_sound :
    (r : Rules) (ls : List Text) (s : Text) → longest_rule r ls ≡ some s → Prevails r ls s
unfolding longest_rule
longest_rule_sound r [] s h = absurd (let q : ⊥ = cc in q)
longest_rule_sound r (label ∷ rest) s h = elim (Bool-cases (is_rule r (label ∷ rest))) [
  | inl t ↦ record {
    above = [];
    rule = label ∷ rest;
    parts = refl;
    matched = is_rule_sound r (label ∷ rest) t;
    spelled = ground arith;
    longest = λ above' rule' e m.
        omega (arith, ap (λ (l : List Text). length l) e, length-append above' rule');
  }
  | inr f ↦
      let p = longest_rule_sound r rest s (ground arith) in
      record {
        above = label ∷ p.above;
        rule = p.rule;
        parts = ap (λ (l : List Text). label ∷ l) p.parts;
        matched = p.matched;
        spelled = p.spelled;
        longest = longest_below r label rest p f;
      }
]

longest_rule-none : (r : Rules) (ls : List Text) → longest_rule r ls ≡ none → NoMatch r ls
unfolding longest_rule
longest_rule-none r [] h [] rule e m = no_rule_nil r (rw e at m)
longest_rule-none r [] h (x ∷ above) rule e m = absurd (let q : ⊥ = cc in q)
longest_rule-none r (label ∷ rest) h [] rule e m =
    let t : is_rule r (label ∷ rest) ≡ true = rw e at (is_rule_complete r rule m) in
    absurd (ground arith)
longest_rule-none r (label ∷ rest) h (x ∷ above) rule e m =
    longest_rule-none r rest (ground arith) above rule (cc) m

-- An exception of the list spells the last labels, and the suffix is the rest of them.
record Excepted (r : Rules) (labels : List Text) (suffix : Text) : Type 0 where
  above : List Text
  label : Text
  rest : List Text
  parts : above ++ label ∷ rest ≡ labels
  listed : elem (join b'.' (label ∷ rest)) r.exceptions ≡ true
  spelled : suffix ≡ join b'.' rest

exception_sound :
    (r : Rules) (ls : List Text) (s : Text)
    → exception_suffix r.exceptions ls ≡ some s
    → Excepted r ls s
unfolding exception_suffix
exception_sound r [] s h = absurd (let q : ⊥ = cc in q)
exception_sound r (label ∷ rest) s h =
    elim (Bool-cases (elem (join b'.' (label ∷ rest)) r.exceptions)) [
      | inl t ↦ record {
        above = [];
        label = label;
        rest = rest;
        parts = refl;
        listed = t;
        spelled = ground arith;
      }
      | inr f ↦
          let p = exception_sound r rest s (ground arith) in
          record {
            above = label ∷ p.above;
            label = p.label;
            rest = p.rest;
            parts = ap (λ (l : List Text). label ∷ l) p.parts;
            listed = p.listed;
            spelled = p.spelled;
          }
    ]

exception_suffix-none :
    (r : Rules) (ls : List Text) → exception_suffix r.exceptions ls ≡ none → NoException r ls
unfolding exception_suffix
exception_suffix-none r [] h [] label rest e = cc
exception_suffix-none r [] h (x ∷ above) label rest e = cc
exception_suffix-none r (first ∷ more) h [] label rest e =
    let f : elem (join b'.' (first ∷ more)) r.exceptions ≡ false = ground arith in
    ap (λ (l : List Text). elem (join b'.' l) r.exceptions) e ∙ f
exception_suffix-none r (first ∷ more) h (x ∷ above) label rest e =
    exception_suffix-none r more (ground arith) above label rest cc

by_longest :
    (r : Rules) (ls : List Text) (o : Option Text)
    → longest_rule r ls ≡ o
    → NoException r ls
    → Suffix r ls (or_else o (last_label ls))
by_longest r ls none h clear = by_default clear (longest_rule-none r ls h) refl
by_longest r ls (some s) h clear = by_rule clear (longest_rule_sound r ls s h)

pub suffix_of-Suffix : (r : Rules) (ls : List Text) → Suffix r ls (suffix_of r ls)
unfolding suffix_of
suffix_of-Suffix r ls = elim (Option-cases (exception_suffix r.exceptions ls)) [
  | inl clear ↦
      rw (clear, suffix_of)
        (by_longest r ls (longest_rule r ls) refl (exception_suffix-none r ls clear))
  | inr (s, found) ↦
      let p = exception_sound r ls s found in
      rw (found, suffix_of) (by_exception p.above p.label p.rest p.parts p.listed p.spelled)
]

-- A suffix that is there is the documented one.
pub public_suffix_sound :
    (r : Rules) (host suffix : Text)
    → public_suffix (some r) (str host) ≡ some suffix
    → Suffix r (split b'.' (trim_host host)) suffix
unfolding public_suffix
public_suffix_sound r host suffix h = trimmed (trim_host host) h
  where
    trimmed : (t : Text) → suffix_of_trimmed r t ≡ some suffix → Suffix r (split b'.' t) suffix
    trimmed [] h = absurd (let q : ⊥ = cc in q)
    trimmed (c ∷ t) h =
        let same : suffix_of r (split b'.' (c ∷ t)) ≡ suffix = cc in
        rw same at (suffix_of-Suffix r (split b'.' (c ∷ t)))

-- With a list loaded, every text that is not empty once trimmed has a public suffix, and it is
-- the one that the documented algorithm gives for its labels.
pub public_suffix-Suffix :
    (r : Rules) (host : Text)
    → trim_host host ≢ []
    → (suffix : Text) × (public_suffix (some r) (str host) ≡ some suffix)
      × Suffix r (split b'.' (trim_host host)) suffix
unfolding public_suffix
public_suffix-Suffix r host h = trimmed (trim_host host) h
  where
    trimmed :
        (t : Text)
        → t ≢ []
        → (suffix : Text) × (suffix_of_trimmed r t ≡ some suffix) × Suffix r (split b'.' t) suffix
    trimmed [] h = absurd (h refl)
    trimmed (c ∷ t) h =
        (suffix_of r (split b'.' (c ∷ t)), refl, suffix_of-Suffix r (split b'.' (c ∷ t)))
