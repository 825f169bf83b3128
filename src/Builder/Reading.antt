-- ===== src/Builder/Reading.antt =====
-- What the workers read back of an index that was built.
use turkey_bite.Prelude.{
  ℕ, zero, suc, ◌<◌, ◌≡◌, subst, refl, sym, ap, ◌∙◌, ◌↔◌, inl, inr, Bool, true, false, none, some,
  Option-cases, List, [], ◌∷◌, ◌++◌, map, length, arith, if◌then◌else◌, nat_eq, list_eq,
}
use turkey_bite.Prelude.Members.{
  In, here, there, In-append, In-append_left, In-append_right, In-map, map-In,
}
use turkey_bite.Text.{Text}
use turkey_bite.Text.Sorting.{NoRepeats}
use turkey_bite.Evidence.{Source}
use turkey_bite.Index.{
  Pair, File, reverse_labels, name_at, pairs_at, decode_found, find, read_claims,
}
use turkey_bite.Index.Search.{IsSorted, find_iff}
use turkey_bite.Builder.{
  Said, Entries, Coded, Sources, source_of, Names, Interned, interned, nothing_interned, sort_rows,
  decode_attr, file_of, refuses, build,
}
use turkey_bite.Builder.Tables.{
  At, At-map, At-length, At-In, In-At, name_at-At, number_at-At, pairs_at-At,
}
use turkey_bite.Builder.Interning.{Says, Coding}
use turkey_bite.Builder.Collected.{intern_entries-From, From-intern_entries}
use turkey_bite.Builder.Rows.{
  reverse_labels_injective, row_names, sort_rows-In, In-sort_rows, sort_rows-IsSorted,
  interned-Distinct,
}

-- A list says the category of the key, and the source is the one that the builder writes for it.
abbrev pub Claims : Sources → Entries → Text → Pair → Type 0
Claims sources entries key (source, category) =
    (said : Said) × (name : Text) × In (key, said) entries
    × Says said name category
    × (source ≡ source_of sources name)

module _ (sources : Sources) (n : Names) where
  abbrev pair_of : ℕ → ℕ → Pair
  pair_of i k = (source_of sources (name_at i n.sources), name_at k n.categories)

  decode_attr-In :
      (co : Coded) (p : Pair)
      → In p (decode_attr sources n co)
      → (i : ℕ) × (ks : List ℕ) × (k : ℕ) × In (i, ks) co × In k ks × (p ≡ pair_of i k)
  decode_attr-In [] p m = elim m [ ]
  decode_attr-In ((i, ks) ∷ co) p m = elim (In-append p (map (pair_of i) ks) _ m) [
    | inl l ↦ let (k, a, e) = In-map (pair_of i) p ks l in (i, ks, k, here refl, a, e)
    | inr r ↦ let (j, ls, k, a, b, e) = decode_attr-In co p r in (j, ls, k, there a, b, e)
  ]

  In-decode_attr :
      (co : Coded) (i : ℕ) (ks : List ℕ) (k : ℕ)
      → In (i, ks) co
      → In k ks
      → In (pair_of i k) (decode_attr sources n co)
  In-decode_attr [] i ks k m b = elim m [ ]
  In-decode_attr ((j, ls) ∷ co) i ks k (there m) b =
      In-append_right (pair_of i k) (map (pair_of j) ls) _ (In-decode_attr co i ks k m b)
  In-decode_attr ((j, ls) ∷ co) i ks k (here e) b =
      subst
        (λ (x : ℕ × List ℕ). In (pair_of i k) (map (pair_of x.0) x.1 ++ decode_attr sources n co)) e
        (In-append_left (pair_of i k) (map (pair_of i) ks) _ (map-In (pair_of i) k ks b))

  -- The pairs of an entry are what was said.
  decode_attr-Says :
      (co : Coded) (said : Said) (source : Source) (category : Text)
      → Coding n co said
      → In (source, category) (decode_attr sources n co)
        ↔ ((name : Text) × Says said name category × (source ≡ source_of sources name))
  decode_attr-Says co said source category w = (to, from)
    where
      to :
          In (source, category) (decode_attr sources n co)
          → (name : Text) × Says said name category × (source ≡ source_of sources name)
      to m =
          let (i, ks, k, a, b, e) = decode_attr-In co (source, category) m in
          let (s, c, says, p, q) = w.sound i ks k a b in
          let d : category ≡ c = ap (λ (x : Pair). x.1) e ∙ name_at-At n.categories k c q in
          (
            s,
            subst (Says said s) (sym d) says,
            ap (λ (x : Pair). x.0) e ∙ ap (source_of sources) (name_at-At n.sources i s p),
          )

      same :
          {s t : Text} {c d : Text}
          → s ≡ t
          → c ≡ d
          → source ≡ source_of sources t
          → ◌≡◌ {A = Pair} (source_of sources s, c) (source, d)
      same p q e = cc

      from :
          (name : Text) × Says said name category × (source ≡ source_of sources name)
          → In (source, category) (decode_attr sources n co)
      from (name, says, e) =
          let (i, ks, k, a, b, p, q) = w.complete name category says in
          subst (λ x. In x (decode_attr sources n co))
            (same (name_at-At n.sources i name p) (name_at-At n.categories k category q) e)
            (In-decode_attr co i ks k a b)

module _ (sources : Sources) (b : Interned) (sorted : IsSorted (row_names (sort_rows b.rows))) where
  -- A key that a row has is read as the entry of the row.
  read_claims-row :
      (key : Text) (i : ℕ) (r : Text × ℕ) (co : Coded)
      → At (sort_rows b.rows) i r
      → r.0 ≡ reverse_labels key
      → At b.attr_table r.1 co
      → read_claims (file_of sources b) key ≡ decode_attr sources b.names co
  unfolding read_claims file_of
  read_claims-row key i r co at e h =
      let named = At-map (λ (q : Text × ℕ). q.0) (sort_rows b.rows) i r at in
      let names = row_names (sort_rows b.rows) in
      let found : find (file_of sources b) (reverse_labels key) ≡ some i =
        (find_iff (file_of sources b) (reverse_labels key) i sorted).1
          (At-length names i r.0 named, name_at-At names i r.0 named ∙ e) in
      ap (decode_found (file_of sources b)) found
      ∙ ap (λ j. pairs_at j (map (decode_attr sources b.names) b.attr_table))
          (number_at-At (map (λ q. q.1) (sort_rows b.rows)) i r.1
            (At-map (λ (q : Text × ℕ). q.1) (sort_rows b.rows) i r at))
      ∙ pairs_at-At (map (decode_attr sources b.names) b.attr_table) r.1
          (decode_attr sources b.names co)
          (At-map (decode_attr sources b.names) b.attr_table r.1 co h)

  -- A key of which something is read has a row.
  read_claims-At :
      (key : Text) (p : Pair)
      → In p (read_claims (file_of sources b) key)
      → (i : ℕ) × (r : Text × ℕ) × At (sort_rows b.rows) i r × (r.0 ≡ reverse_labels key)
  unfolding read_claims file_of
  read_claims-At key p m = elim (Option-cases (find (file_of sources b) (reverse_labels key))) [
    | inl e ↦ elim (subst (λ o. In p (decode_found (file_of sources b) o)) e m) [ ]
    | inr (i, e) ↦
        let (lt, at) = (find_iff (file_of sources b) (reverse_labels key) i sorted).0 e in
        let (r, h) = row_at (sort_rows b.rows) i lt in
        (
          i,
          r,
          h,
          sym (
                name_at-At (row_names (sort_rows b.rows)) i r.0
                  (At-map (λ (q : Text × ℕ). q.0) (sort_rows b.rows) i r h))
              ∙ at,
        )
  ]
    where
      row_at :
          (rows : List (Text × ℕ)) (i : ℕ)
          → i < length (row_names rows)
          → (r : Text × ℕ) × At rows i r
      row_at [] i h = absurd (omega (arith, h))
      row_at (r ∷ rows) zero h = (r, refl)
      row_at (r ∷ rows) (suc i) h = row_at rows i (omega (arith, h))

built :
    (sources : Sources) (entries : Entries) (file : File)
    → build sources entries ≡ some file
    → file_of sources (interned entries) ≡ file
unfolding build
built sources entries file h =
    given (refuses sources (interned entries)) (file_of sources (interned entries)) h
  where
    given : (q : Bool) (f : File) → (if q then none else some f) ≡ some file → f ≡ file
    given true f h = absurd (let z : ⊥ = cc in z)
    given false f h = cc

file_of-Claims :
    (sources : Sources) (entries : Entries) (key : Text) (source : Source) (category : Text)
    → NoRepeats (map (λ e. e.0) entries)
    → In (source, category) (read_claims (file_of sources (interned entries)) key)
      ↔ Claims sources entries key (source, category)
unfolding interned
file_of-Claims sources entries key source category distinct = (to, from)
  where
    b : Interned
    b = interned entries

    sorted : IsSorted (row_names (sort_rows b.rows))
    sorted = sort_rows-IsSorted b.rows (interned-Distinct entries distinct)

    to :
        In (source, category) (read_claims (file_of sources b) key)
        → Claims sources entries key (source, category)
    to m =
        let (i, r, at, e) = read_claims-At sources b sorted key (source, category) m in
        elim (intern_entries-From entries nothing_interned r
          (sort_rows-In r b.rows (In-At (sort_rows b.rows) i r at))) [
            | inl q ↦ elim q [ ]
            | inr (domain, said, n, d, (co, h, w)) ↦
                let (name, says, f) =
                  (decode_attr-Says sources b.names co said source category w).0 (
                    subst (In (source, category))
                      (read_claims-row sources b sorted key i r co at e h) m) in
                (
                  said,
                  name,
                  subst (λ x. In (x, said) entries)
                      (reverse_labels_injective domain key (sym d ∙ e)) n,
                  says,
                  f,
                )
          ]

    from :
        Claims sources entries key (source, category)
        → In (source, category) (read_claims (file_of sources b) key)
    from (said, name, m, says, f) =
        let (j, n, (co, h, w)) =
          From-intern_entries entries nothing_interned key said name category m says in
        let (i, at) =
          At-In (sort_rows b.rows) (reverse_labels key, j)
            (In-sort_rows (reverse_labels key, j) b.rows n) in
        subst (In (source, category))
          (sym (read_claims-row sources b sorted key i (reverse_labels key, j) co at refl h))
          ((decode_attr-Says sources b.names co said source category w).1 (name, says, f))

-- What a worker reads of a key from an index that `build` wrote is what the entries say of it: a
-- source and a category are among the claims read exactly when a list with that category for the
-- key is in the entries and the source is the one written for the list's name. The entries are a
-- dict, so no key stands twice.
pub build-read_claims :
    (sources : Sources) (entries : Entries) (file : File) (key : Text) (source : Source)
    (category : Text)
    → NoRepeats (map (λ e. e.0) entries)
    → build sources entries ≡ some file
    → In (source, category) (read_claims file key) ↔ Claims sources entries key (source, category)
build-read_claims sources entries file key source category distinct h =
    subst
      (λ f.
        In (source, category) (read_claims f key) ↔ Claims sources entries key (source, category))
      (built sources entries file h) (file_of-Claims sources entries key source category distinct)
