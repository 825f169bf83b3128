-- ===== src/Evidence/Support.antt =====
-- The evidence behind an asserted category, for `resolve` of src/libtb/evidence.
use turkey_bite.Prelude.{
  ℕ, ◌≤◌, ◌≡◌, sym, ◌∙◌, inl, inr, Bool, true, false, List, [], ◌∷◌, arith, and-eq-true, or-eq-true,
  not-eq-true_iff, ◌==◌, nat_eq, list_eq, length, elem, all, leb, leb→le, Bool-cases, leb-eq-false,
}
use turkey_bite.Prelude.Members.{In, here, there, any-In, In-keep, In-map}
use turkey_bite.Text.{Text}
use turkey_bite.Taxonomy.{Statement, statement_eq}
use turkey_bite.Evidence.{
  Source, Claim, Bar, is_negated, is_high, is_medium, corrections_of, cancels, counted, trusted,
  backers, supported, evident, needed, statements, corroborated, is_asserted, resolve,
}
use turkey_bite.Evidence.Corroboration.{AllSeparate, Among, done, take, skip, corroborated_iff}
use turkey_bite.Evidence.Partition.{asserts, resolve-asserted}

-- The claim is counted by `resolve`: it is no correction, and no correction cancels it; and one
-- of the statements of its category is the statement.
pub record Makes (claims : List Claim) (s : Statement) (c : Claim) : Type 0 where
  pub made : In c claims
  pub not_negated : is_negated c ≡ false
  pub not_cancelled : cancels (corrections_of claims) c.category ≡ false
  pub states : elem s (statements c.category) ≡ true

-- A source that claims the statement, with a medium trust.
pub record Backs (claims : List Claim) (s : Statement) (source : Source) : Type 0 where
  pub claim : Claim
  pub makes : Makes claims s claim
  pub is_source : source ≡ claim.source
  pub is_trusted : is_medium claim.source.trust ≡ true

-- Every member of a part of the list is a member of the list.
Among-In :
    {group sources : List Source} → Among group sources → (s : Source) → In s group → In s sources
Among-In done s m = elim m [ ]
Among-In (take a m) s (here e) = here e
Among-In (take a m) s (there n) = there (Among-In m s n)
Among-In (skip a m) s n = there (Among-In m s n)

module _ (claims : List Claim) (s : Statement) where
  Makes-counted :
      (c : Claim) → In c (counted claims) → elem s (statements c.category) ≡ true → Makes claims s c
  unfolding counted
  Makes-counted c m h =
      let (n, k) = In-keep _ c claims m in
      let (u, w) = and-eq-true _ _ k in
      record {
        made = n;
        not_negated = (not-eq-true_iff _).0 u;
        not_cancelled = (not-eq-true_iff _).0 w;
        states = h;
      }

  Makes-trusted :
      trusted (counted claims) s ≡ true
      → (c : Claim) × Makes claims s c × (is_high c.source.trust ≡ true)
  unfolding trusted
  Makes-trusted h =
      let (c, m, k) = any-In _ (counted claims) h in
      let (u, w) = and-eq-true _ _ k in (c, Makes-counted c m w, u)

  Backs-backers : (b : Source) → In b (backers (counted claims) s) → Backs claims s b
  unfolding backers
  Backs-backers b m =
      let (c, n, e) = In-map _ b _ m in
      let (k, t) = In-keep _ c (counted claims) n in
      let (u, w) = and-eq-true _ _ t in
      record { claim = c; makes = Makes-counted c k w; is_source = e; is_trusted = u }

-- Why a statement is believed: one claim of a source of high trust makes it, or as many pairwise
-- separate sources of medium trust back it as are needed (one at least).
pub data Believed (bar : Bar) (claims : List Claim) (s : Statement) : Type 0 where
  by_trust : (c : Claim) → Makes claims s c → is_high c.source.trust ≡ true → Believed bar claims s
  by_number :
      (group : List Source)
      → needed s bar ≤ length group
      → 1 ≤ length group
      → AllSeparate group
      → ((b : Source) → In b group → Backs claims s b)
      → Believed bar claims s

all-elem :
    (p : Statement → Bool) (s : Statement) (xs : List Statement)
    → all p xs ≡ true
    → elem s xs ≡ true
    → p s ≡ true
all-elem p s [] h m = absurd (let z : ⊥ = cc in z)
all-elem p s (x ∷ xs) h m =
    let (k, l) = and-eq-true _ _ h in
    elim (or-eq-true (s == x) (elem s xs) m) [
      | inl e ↦ rw ((statement_eq.same_iff s x).0 e) k
      | inr n ↦ all-elem p s xs l n
    ]

module _ (bar : Bar) (claims : List Claim) (s : Statement) where
  Believed-corroborated :
      (n : ℕ)
      → 1 ≤ n
      → needed s bar ≤ n
      → corroborated (backers (counted claims) s) n ≡ true
      → Believed bar claims s
  Believed-corroborated n pos enough h =
      let (group, among, size, apart) = (corroborated_iff (backers (counted claims) s) n pos).0 h in
      by_number group (omega (arith, size, enough)) (omega (arith, size, pos)) apart
        (λ b m. Backs-backers claims s b (Among-In among b m))

  corroborated_one :
      (sources : List Source) (n : ℕ)
      → leb n 1 ≡ true
      → corroborated sources n ≡ true
      → corroborated sources 1 ≡ true
  unfolding corroborated
  corroborated_one sources n e h = rw e at h

  Believed-supported : supported bar (counted claims) s ≡ true → Believed bar claims s
  unfolding supported
  Believed-supported h = elim (or-eq-true _ _ h) [
    | inl t ↦ let (c, m, k) = Makes-trusted claims s t in by_trust c m k
    | inr k ↦ elim (Bool-cases (leb (needed s bar) 1)) [
      | inl one ↦
          Believed-corroborated 1 (omega arith) (leb→le _ _ one) (corroborated_one _ _ one k)
      | inr more ↦
          Believed-corroborated (needed s bar) (omega (arith, leb-eq-false _ _ more)) (omega arith)
            k
    ]
  ]

-- Each statement of a category that `resolve` asserts is believed: a claim that is no correction,
-- and that no correction cancels, makes it for a source of high trust, or at least as many sources
-- as the bar needs for it (and one at least) make it in such claims with medium trust, and these
-- are pairwise separate: of different publishers, and no one copying another's.
pub resolve-Believed :
    (bar : Bar) (navigation : Bool) (claims : List Claim) (c : Text) (s : Statement)
    → asserts (resolve bar navigation claims) c ≡ true
    → elem s (statements c) ≡ true
    → Believed bar claims s
unfolding is_asserted evident
resolve-Believed bar navigation claims c s a m =
    let (t, _) = and-eq-true _ _ (sym (resolve-asserted bar navigation claims c) ∙ a) in
    let (u, _) = and-eq-true _ _ t in
    let (w, _) = and-eq-true _ _ u in
    Believed-supported bar claims s (all-elem (supported bar (counted claims)) s (statements c) w m)
