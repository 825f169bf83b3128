-- ===== src/Builder/Ignore/Corrected.antt =====
-- What `apply_ignorelist` adds, and what workers read of an index with it.
use turkey_bite.Prelude.{
  ℕ, ◌≡◌, subst, refl, ◌↔◌, ◌⊎◌, inl, inr, true, some, List, [], ◌∷◌, ◌++◌, Bool-cases, nat_eq,
  list_eq,
}
use turkey_bite.Prelude.Members.{In, here, there}
use turkey_bite.Text.{Text}
use turkey_bite.Text.Sorting.{NoRepeats}
use turkey_bite.Json.{Json}
use turkey_bite.Evidence.{Source, negation}
use turkey_bite.Index.{File, read_claims}
use turkey_bite.Builder.{Entries, ignorelist_source, source_of, build}
use turkey_bite.Builder.Reading.{build-read_claims}
use turkey_bite.Builder.Collect.{ListFile, Configured, source_table, valid_host, collect_entries}
use turkey_bite.Builder.Collect.Adding.{Has, add_entry-Entered, keys_of, add_entry-NoRepeats}
use turkey_bite.Builder.Collect.Listed.{Listed, collect_entries-Listed, collect_entries-NoRepeats}
use turkey_bite.Builder.Ignore.{
  Ignorelist, ignored_key, ignore_host, ignore_hosts, apply_from, apply_ignorelist, index_entries,
}

-- A host of the list that is well formed has the key, and the list corrects the category for it.
abbrev HostCorrects : Text → Json → Text → Text → Text → Type 0
HostCorrects context host key s c =
    (valid_host (ignored_key host) ≡ true)
    × (ignored_key host ≡ key)
    × (ignorelist_source ≡ s)
    × (c ≡ negation ++ context)

abbrev pub Corrected : Ignorelist → Text → Text → Text → Type 0
Corrected ignorelist key s c =
    (context : Text) × (hosts : List Json) × (host : Json) × In (context, hosts) ignorelist
    × In host hosts
    × HostCorrects context host key s c

abbrev HostsCorrect : Text → List Json → Text → Text → Text → Type 0
HostsCorrect context hosts key s c =
    (host : Json) × In host hosts × HostCorrects context host key s c

only : (c d : Text) → In c (d ∷ []) → c ≡ d
only c d (here e) = e
only c d (there m) = elim m [ ]

ignore_host-Has :
    (context : Text) (host : Json) (acc : Entries × ℕ) (key s c : Text)
    → Has (ignore_host context host acc).0 key s c
      ↔ (Has acc.0 key s c ⊎ HostCorrects context host key s c)
ignore_host-Has context host acc key s c = elim (Bool-cases (valid_host (ignored_key host))) [
  | inl v ↦
      let (to, from) =
        add_entry-Entered (ignored_key host) ignorelist_source ((negation ++ context) ∷ []) acc.0
          key s c in
      rw v (
        (λ h. elim (to h) [ inl o ↦ inl o | inr (e, p, m) ↦ inr (refl, e, p, only c _ m) ]),
        λ h. from (elim h [ inl o ↦ inl o | inr (_, e, p, d) ↦ inr (e, p, here d) ]),
      )
  | inr n ↦
      rw n
        ((λ h. inl h), λ h. elim h [ inl o ↦ o | inr (v, e, p, d) ↦ absurd (let z : ⊥ = cc in z) ])
]

ignore_hosts-Has :
    (context : Text) (hosts : List Json) (acc : Entries × ℕ) (key s c : Text)
    → Has (ignore_hosts context hosts acc).0 key s c
      ↔ (Has acc.0 key s c ⊎ HostsCorrect context hosts key s c)
unfolding ignore_hosts
ignore_hosts-Has context [] acc key s c =
    ((λ h. inl h), λ h. elim h [ inl o ↦ o | inr (j, m, w) ↦ elim m [ ] ])
ignore_hosts-Has context (host ∷ hosts) acc key s c =
    let (to, from) = ignore_hosts-Has context hosts (ignore_host context host acc) key s c in
    let (onto, into) = ignore_host-Has context host acc key s c in
    (
      (λ h. elim (to h) [
        | inl b ↦ elim (onto b) [ inl o ↦ inl o | inr w ↦ inr (host, here refl, w) ]
        | inr (j, m, w) ↦ inr (j, there m, w)
      ]),
      λ h. from (elim h [
        | inl o ↦ inl (into (inl o))
        | inr (j, m, w) ↦ elim m [
          | here q ↦ inl (into (inr (subst (λ x. HostCorrects context x key s c) q w)))
          | there m' ↦ inr (j, m', w)
        ]
      ]),
    )

apply_from-Corrected :
    (ignorelist : Ignorelist) (acc : Entries × ℕ) (key s c : Text)
    → Has (apply_from ignorelist acc).0 key s c ↔ (Has acc.0 key s c ⊎ Corrected ignorelist key s c)
unfolding apply_from
apply_from-Corrected [] acc key s c =
    ((λ h. inl h), λ h. elim h [ inl o ↦ o | inr (x, y, j, m, k, w) ↦ elim m [ ] ])
apply_from-Corrected ((context, hosts) ∷ ignorelist) acc key s c =
    let (to, from) = apply_from-Corrected ignorelist (ignore_hosts context hosts acc) key s c in
    let (onto, into) = ignore_hosts-Has context hosts acc key s c in
    (
      (λ h. elim (to h) [
        | inl b ↦ elim (onto b) [
          | inl o ↦ inl o
          | inr (j, k, w) ↦ inr (context, hosts, j, here refl, k, w)
        ]
        | inr (x, y, j, m, k, w) ↦ inr (x, y, j, there m, k, w)
      ]),
      λ h. from (elim h [
        | inl o ↦ inl (into (inl o))
        | inr (x, y, j, m, k, w) ↦ elim m [
          | here q ↦ inl (
              into
                (inr (subst (λ (z : Text × List Json). HostsCorrect z.0 z.1 key s c) q (j, k, w))))
          | there m' ↦ inr (x, y, j, m', k, w)
        ]
      ]),
    )

ignore_host-NoRepeats :
    (context : Text) (host : Json) (acc : Entries × ℕ)
    → NoRepeats (keys_of acc.0)
    → NoRepeats (keys_of (ignore_host context host acc).0)
ignore_host-NoRepeats context host acc h = elim (Bool-cases (valid_host (ignored_key host))) [
  | inl v ↦ rw v (
      add_entry-NoRepeats (ignored_key host) ignorelist_source ((negation ++ context) ∷ []) acc.0 h)
  | inr n ↦ rw n h
]

ignore_hosts-NoRepeats :
    (context : Text) (hosts : List Json) (acc : Entries × ℕ)
    → NoRepeats (keys_of acc.0)
    → NoRepeats (keys_of (ignore_hosts context hosts acc).0)
unfolding ignore_hosts
ignore_hosts-NoRepeats context [] acc h = h
ignore_hosts-NoRepeats context (host ∷ hosts) acc h =
    ignore_hosts-NoRepeats context hosts (ignore_host context host acc)
      (ignore_host-NoRepeats context host acc h)

apply_from-NoRepeats :
    (ignorelist : Ignorelist) (acc : Entries × ℕ)
    → NoRepeats (keys_of acc.0)
    → NoRepeats (keys_of (apply_from ignorelist acc).0)
unfolding apply_from
apply_from-NoRepeats [] acc h = h
apply_from-NoRepeats ((context, hosts) ∷ ignorelist) acc h =
    apply_from-NoRepeats ignorelist (ignore_hosts context hosts acc)
      (ignore_hosts-NoRepeats context hosts acc h)

index_entries-NoRepeats :
    (configured : Configured) (files : List ListFile) (ignorelist : Ignorelist)
    → NoRepeats (keys_of (index_entries configured files ignorelist))
unfolding index_entries apply_ignorelist
index_entries-NoRepeats configured files ignorelist =
    apply_from-NoRepeats ignorelist ((collect_entries configured files).0, 0)
      (collect_entries-NoRepeats configured files)

index_entries-Has :
    (configured : Configured) (files : List ListFile) (ignorelist : Ignorelist) (key s c : Text)
    → Has (index_entries configured files ignorelist) key s c
      ↔ (Listed configured files key s c ⊎ Corrected ignorelist key s c)
unfolding index_entries apply_ignorelist
index_entries-Has configured files ignorelist key s c =
    let (to, from) =
      apply_from-Corrected ignorelist ((collect_entries configured files).0, 0) key s c in
    let (onto, into) = collect_entries-Listed configured files key s c in
    (
      (λ h. elim (to h) [ inl b ↦ inl (onto b) | inr r ↦ inr r ]),
      λ h. from (elim h [ inl l ↦ inl (into l) | inr r ↦ inr r ]),
    )

-- From list files to workers: of an index that `build` wrote from the list files and the
-- ignorelist, a worker reads a source with a category for a key exactly when a list file lists the
-- category for the key, or the ignorelist corrects it and the category is the correction's, and
-- the source is the one written for the list's name.
pub index_entries-read_claims :
    (configured : Configured) (files : List ListFile) (ignorelist : Ignorelist) (file : File)
    (key : Text) (source : Source) (category : Text)
    → build (source_table configured) (index_entries configured files ignorelist) ≡ some file
    → In (source, category) (read_claims file key) ↔ (
        (name : Text) × (Listed configured files key name category
          ⊎ Corrected ignorelist key name category)
        × (source ≡ source_of (source_table configured) name))
index_entries-read_claims configured files ignorelist file key source category h =
    let (to, from) =
      build-read_claims (source_table configured) (index_entries configured files ignorelist) file
        key source category (index_entries-NoRepeats configured files ignorelist) h in
    (
      (λ m.
          let (said, name, n, says, e) = to m in
          (
            name,
            (index_entries-Has configured files ignorelist key name category).0 (said, n, says),
            e,
          )),
      λ (name, l, e).
          let (said, n, says) =
            (index_entries-Has configured files ignorelist key name category).1 l in
          from (said, name, n, says, e),
    )
