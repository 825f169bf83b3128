-- ===== src/Builder/Collect/Listed.antt =====
-- What `collect_entries` enters, and what workers then read, against the lines of the list files.
use turkey_bite.Prelude.{
  ℕ, ◌+◌, ◌≡◌, subst, refl, ◌↔◌, ◌⊎◌, inl, inr, Bool, true, false, not, List, [], ◌∷◌, Bool-cases,
  if◌then◌else◌, ◌==◌, nat_eq, list_eq,
}
use turkey_bite.Prelude.Members.{In, here, there}
use turkey_bite.Text.{Text}
use turkey_bite.Text.Sorting.{NoRepeats}
use turkey_bite.Builder.{Entries}
use turkey_bite.Builder.Collect.{
  ListFile, Configured, valid_host, add_entry, conf_of, categories_of, key_of, domain_of,
  collect_lines, collect_file, collect_from, collect_entries,
}
use turkey_bite.Builder.Collect.Adding.{Has, add_entry-Entered, keys_of, add_entry-NoRepeats}

-- A line is a host, and is entered under the key.
abbrev pub Gives : Bool → Text → Text → Type 0
Gives whole_domains line key =
    (valid_host (domain_of line) ≡ true) × (key_of whole_domains (domain_of line) ≡ key)

abbrev LinesGive : Bool → Text → List Text → List Text → Text → Text → Text → Type 0
LinesGive w name categories lines key s c =
    (line : Text) × In line lines × Gives w line key × (name ≡ s) × In c categories

module _ (w : Bool) (name : Text) (categories : List Text) where
  abbrev collect_line : Text → Entries × ℕ → Entries × ℕ
  collect_line line (entries, skipped) =
      let domain = domain_of line in
      if domain == []
      then (entries, skipped)
      else if not (valid_host domain)
      then (entries, skipped + 1)
      else (add_entry (key_of w domain) name categories entries, skipped)

  valid_is_not_empty : (d : Text) → valid_host d ≡ true → (d == []) ≡ false
  unfolding valid_host
  valid_is_not_empty [] h = absurd (let z : ⊥ = cc in z)
  valid_is_not_empty (c ∷ d) h = refl

  invalid : (line : Text) (key : Text) → valid_host (domain_of line) ≡ false → Gives w line key → ⊥
  invalid line key n (v, e) = let z : ⊥ = cc in z

  collect_line-Has :
      (line : Text) (acc : Entries × ℕ) (key s c : Text)
      → Has (collect_line line acc).0 key s c
        ↔ (Has acc.0 key s c ⊎ (Gives w line key × (name ≡ s) × In c categories))
  collect_line-Has line acc key s c = elim (Bool-cases (valid_host (domain_of line))) [
    | inl v ↦
        let (to, from) =
          add_entry-Entered (key_of w (domain_of line)) name categories acc.0 key s c in
        rw (valid_is_not_empty (domain_of line) v, v)
          (
            (λ h. elim (to h) [ inl o ↦ inl o | inr (e, p, m) ↦ inr ((refl, e), p, m) ]),
            λ h. from (elim h [ inl o ↦ inl o | inr ((_, e), p, m) ↦ inr (e, p, m) ]),
          )
    | inr n ↦ skipped n (Bool-cases (domain_of line == []))
  ]
    where
      same :
          valid_host (domain_of line) ≡ false
          → (e : Entries) → e ≡ acc.0
          → Has e key s c ↔ (Has acc.0 key s c ⊎ (Gives w line key × (name ≡ s) × In c categories))
      same n e p =
          rw p (
            (λ h. inl h),
            λ h. elim h [ inl o ↦ o | inr (g, q, m) ↦ absurd (invalid line key n g) ],
          )

      skipped :
          valid_host (domain_of line) ≡ false
          → ((domain_of line == []) ≡ true) ⊎ ((domain_of line == []) ≡ false)
          → Has (collect_line line acc).0 key s c
            ↔ (Has acc.0 key s c ⊎ (Gives w line key × (name ≡ s) × In c categories))
      skipped n (inl e) = same n (collect_line line acc).0 (rw e refl)
      skipped n (inr e) = same n (collect_line line acc).0 (rw (e, n) refl)

  collect_lines-Has :
      (lines : List Text) (acc : Entries × ℕ) (key s c : Text)
      → Has (collect_lines w name categories lines acc).0 key s c
        ↔ (Has acc.0 key s c ⊎ LinesGive w name categories lines key s c)
  unfolding collect_lines
  collect_lines-Has [] acc key s c =
      ((λ h. inl h), λ h. elim h [ inl o ↦ o | inr (l, m, g, p, r) ↦ elim m [ ] ])
  collect_lines-Has (line ∷ lines) acc key s c =
      let (to, from) = collect_lines-Has lines (collect_line line acc) key s c in
      let (onto, into) = collect_line-Has line acc key s c in
      (
        (λ h. elim (to h) [
          | inl b ↦ elim (onto b) [ inl o ↦ inl o | inr (g, p, r) ↦ inr (line, here refl, g, p, r) ]
          | inr (l, m, g, p, r) ↦ inr (l, there m, g, p, r)
        ]),
        λ h. from (elim h [
          | inl o ↦ inl (into (inl o))
          | inr (l, m, g, p, r) ↦ elim m [
            | here e ↦ inl (into (inr (subst (λ x. Gives w x key) e g, p, r)))
            | there m' ↦ inr (l, m', g, p, r)
          ]
        ]),
      )

  either-NoRepeats :
      (a b : Bool) (x y z : Entries × ℕ)
      → NoRepeats (keys_of x.0)
      → NoRepeats (keys_of y.0)
      → NoRepeats (keys_of z.0)
      → NoRepeats (keys_of (if a then x else if b then y else z).0)
  either-NoRepeats true b x y z h k l = h
  either-NoRepeats false true x y z h k l = k
  either-NoRepeats false false x y z h k l = l

  collect_line-NoRepeats :
      (line : Text) (acc : Entries × ℕ)
      → NoRepeats (keys_of acc.0)
      → NoRepeats (keys_of (collect_line line acc).0)
  collect_line-NoRepeats line (entries, n) h =
      let key = key_of w (domain_of line) in
      either-NoRepeats (domain_of line == []) (not (valid_host (domain_of line))) (entries, n)
        (entries, n + 1) (add_entry key name categories entries, n) h h
        (add_entry-NoRepeats key name categories entries h)

  collect_lines-NoRepeats :
      (lines : List Text) (acc : Entries × ℕ)
      → NoRepeats (keys_of acc.0)
      → NoRepeats (keys_of (collect_lines w name categories lines acc).0)
  unfolding collect_lines
  collect_lines-NoRepeats [] acc h = h
  collect_lines-NoRepeats (line ∷ lines) acc h =
      collect_lines-NoRepeats lines (collect_line line acc) (collect_line-NoRepeats line acc h)

-- A list file lists a category for a key: it has the name and, by its settings or its directory,
-- the category, and one of its lines is a host that its settings enter under the key.
abbrev pub Listed : Configured → List ListFile → Text → Text → Text → Type 0
Listed configured files key name category =
    (f : ListFile) × (line : Text) × In f files
    × In line f.lines
    × Gives (conf_of configured f.name).subtree line key
    × (f.name ≡ name)
    × In category (categories_of configured f)

collect_from-Listed :
    (configured : Configured) (files : List ListFile) (acc : Entries × ℕ) (key s c : Text)
    → Has (collect_from configured files acc).0 key s c
      ↔ (Has acc.0 key s c ⊎ Listed configured files key s c)
unfolding collect_from
collect_from-Listed configured [] acc key s c =
    ((λ h. inl h), λ h. elim h [ inl o ↦ o | inr (f, l, m, a, g, p, r) ↦ elim m [ ] ])
collect_from-Listed configured (g ∷ files) acc key s c =
    let (to, from) = collect_from-Listed configured files (collect_file configured g acc) key s c in
    let (onto, into) =
      collect_lines-Has (conf_of configured g.name).subtree g.name (categories_of configured g)
        g.lines acc key s c in
    (
      (λ h. elim (to h) [
        | inl b ↦ elim (onto b) [
          | inl o ↦ inl o
          | inr (l, m, v, p, r) ↦ inr (g, l, here refl, m, v, p, r)
        ]
        | inr (f, l, m, a, v, p, r) ↦ inr (f, l, there m, a, v, p, r)
      ]),
      λ h. from (elim h [
        | inl o ↦ inl (into (inl o))
        | inr (f, l, m, a, v, p, r) ↦ elim m [
          | here e ↦
              let (a', v', p', r') =
                subst
                  (λ (x : ListFile).
                    In l x.lines
                    × Gives (conf_of configured x.name).subtree l key
                    × (x.name ≡ s)
                    × In c (categories_of configured x))
                  e (a, v, p, r) in
              inl (into (inr (l, a', v', p', r')))
          | there m' ↦ inr (f, l, m', a, v, p, r)
        ]
      ]),
    )

collect_from-NoRepeats :
    (configured : Configured) (files : List ListFile) (acc : Entries × ℕ)
    → NoRepeats (keys_of acc.0)
    → NoRepeats (keys_of (collect_from configured files acc).0)
unfolding collect_from
collect_from-NoRepeats configured [] acc h = h
collect_from-NoRepeats configured (g ∷ files) acc h =
    collect_from-NoRepeats configured files (collect_file configured g acc) (
      collect_lines-NoRepeats (conf_of configured g.name).subtree g.name
        (categories_of configured g) g.lines acc h)

pub collect_entries-Listed :
    (configured : Configured) (files : List ListFile) (key s c : Text)
    → Has (collect_entries configured files).0 key s c ↔ Listed configured files key s c
unfolding collect_entries
collect_entries-Listed configured files key s c =
    let (to, from) = collect_from-Listed configured files ([], 0) key s c in
    ((λ h. elim (to h) [ inl (t, m, says) ↦ elim m [ ] | inr l ↦ l ]), λ l. from (inr l))

pub collect_entries-NoRepeats :
    (configured : Configured) (files : List ListFile)
    → NoRepeats (keys_of (collect_entries configured files).0)
unfolding collect_entries
collect_entries-NoRepeats configured files = collect_from-NoRepeats configured files ([], 0) tt
