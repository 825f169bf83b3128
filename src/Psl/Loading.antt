-- ===== src/Psl/Loading.antt =====
-- What `parse`, `usable` and `_load` of src/libtb/psl keep.
use turkey_bite.Prelude.{
  ◌≡◌, refl, ◌⊎◌, inl, inr, Bool, true, false, ◌&&◌, Option, none, some, List, [], ◌∷◌, Bool-cases,
  and-eq-true, nat_eq, list_eq, elem,
}
use turkey_bite.Text.{Text, text, lower, strip, starts_with}
use turkey_bite.Text.Sorting.{NoRepeats}
use turkey_bite.Psl.{
  Rules, add, add_rule, parse_from, parse, usable, Identity, State, Disk, forgotten, add_option,
  add_both, parse_line, reread, load_at, is_loaded, is_current, load, ascii_form, first_word,
}

pub record IsSets (r : Rules) : Type 0 where
  pub rules : NoRepeats r.rules
  pub wildcards : NoRepeats r.wildcards
  pub exceptions : NoRepeats r.exceptions

add-NoRepeats : (t : Text) (bucket : List Text) → NoRepeats bucket → NoRepeats (add t bucket)
add-NoRepeats t bucket h = elim (Bool-cases (elem t bucket)) [
  | inl old ↦ rw old h
  | inr new ↦ rw new (new, h)
]

-- What is loaded is usable.
abbrev pub IsUsable : State → Type 0
IsUsable st = (r : Rules) → st.loaded ≡ some r → usable r.rules ≡ true

add_option-NoRepeats :
    (o : Option Text) (bucket : List Text) → NoRepeats bucket → NoRepeats (add_option o bucket)
add_option-NoRepeats none bucket h = h
add_option-NoRepeats (some t) bucket h = add-NoRepeats t bucket h

is_loaded-some : (o : Option Rules) → is_loaded o ≡ true → (r : Rules) × (o ≡ some r)
is_loaded-some none h = absurd (let q : ⊥ = cc in q)
is_loaded-some (some r) h = (r, refl)

module _ (punycode : Text → Option Text) where
  add_both-NoRepeats :
      (t : Text) (bucket : List Text) → NoRepeats bucket → NoRepeats (add_both punycode t bucket)
  add_both-NoRepeats t bucket h =
      add_option-NoRepeats (ascii_form punycode t) (add t bucket) (add-NoRepeats t bucket h)

  add_rule-IsSets : (rule : Text) (r : Rules) → IsSets r → IsSets (add_rule punycode rule r)
  unfolding add_rule
  add_rule-IsSets rule r h = elim (Bool-cases (starts_with (text "!") rule)) [
    | inl exception ↦ rw exception (record {
      rules = h.rules;
      wildcards = h.wildcards;
      exceptions = add_both-NoRepeats _ r.exceptions h.exceptions;
    })
    | inr other ↦ elim (Bool-cases (starts_with (text "*.") rule)) [
      | inl wildcard ↦
          rw (other, wildcard)
            (record {
              rules = h.rules;
              wildcards = add_both-NoRepeats _ r.wildcards h.wildcards;
              exceptions = h.exceptions;
            })
      | inr plain ↦
          rw (other, plain)
            (record {
              rules = add_both-NoRepeats rule r.rules h.rules;
              wildcards = h.wildcards;
              exceptions = h.exceptions;
            })
    ]
  ]

  parse_line-IsSets : (r : Rules) (line : Text) → IsSets r → IsSets (parse_line punycode r line)
  parse_line-IsSets r [] h = h
  parse_line-IsSets r (c ∷ s) h = elim (Bool-cases (starts_with (text "//") (c ∷ s))) [
    | inl comment ↦ rw comment h
    | inr rule ↦ rw rule (add_rule-IsSets (lower (first_word (c ∷ s))) r h)
  ]

  parse_from-IsSets :
      (r : Rules) (lines : List Text) → IsSets r → IsSets (parse_from punycode r lines)
  unfolding parse_from
  parse_from-IsSets r [] h = h
  parse_from-IsSets r (line ∷ lines) h =
      parse_from-IsSets (parse_line punycode r (strip line)) lines
        (parse_line-IsSets r (strip line) h)

  -- No rule stands twice among what `parse` returns, so `usable` counts distinct rules.
  pub parse-IsSets : (lines : List Text) → IsSets (parse punycode lines)
  unfolding parse
  parse-IsSets lines =
      parse_from-IsSets _ lines (record { rules = tt; wildcards = tt; exceptions = tt })

  -- What one call of `_load` may do: forget everything where there is no file, keep the state, or
  -- take rules that are usable and the file's identity; and what it returns.
  pub data Loaded (st : State) (disk : Disk) : Bool → State → Type 0 where
    missing : disk.stat ≡ none → Loaded st disk false forgotten
    kept :
        (now : Identity)
        → disk.stat ≡ some now
        → ((is_current st.identity now ≡ true)
            ⊎ (disk.lines ≡ none)
            ⊎ ((lines : List Text) × (disk.lines ≡ some lines)
                × (usable (parse punycode lines).rules ≡ false)))
        → Loaded st disk (is_loaded st.loaded) st
    taken :
        (now : Identity) (lines : List Text)
        → disk.stat ≡ some now
        → disk.lines ≡ some lines
        → usable (parse punycode lines).rules ≡ true
        → Loaded st disk true (record { identity = some now; loaded = some (parse punycode lines) })

  reread-Loaded :
      (st : State) (disk : Disk) (now : Identity) (o : Option (List Text))
      → disk.stat ≡ some now
      → disk.lines ≡ o
      → Loaded st disk (reread punycode st now o).0 (reread punycode st now o).1
  reread-Loaded st disk now none here unread = kept now here (inr (inl unread))
  reread-Loaded st disk now (some lines) here found =
      elim (Bool-cases (usable (parse punycode lines).rules)) [
        | inl good ↦ rw good (taken now lines here found good)
        | inr bad ↦ rw bad (kept now here (inr (inr (lines, found, bad))))
      ]

  load_at-Loaded :
      (st : State) (disk : Disk) (o : Option Identity)
      → disk.stat ≡ o
      → Loaded st disk (load_at punycode st disk o).0 (load_at punycode st disk o).1
  load_at-Loaded st disk none gone = missing gone
  load_at-Loaded st disk (some now) here =
      elim (Bool-cases (is_current st.identity now && is_loaded st.loaded)) [
        | inl same ↦
            let (current, have) = and-eq-true _ _ same in
            rw (same, ← have) (kept now here (inl current))
        | inr changed ↦ rw changed (reread-Loaded st disk now disk.lines here refl)
      ]

  pub load-Loaded :
      (st : State) (disk : Disk)
      → Loaded st disk (load punycode st disk).0 (load punycode st disk).1
  unfolding load
  load-Loaded st disk = load_at-Loaded st disk disk.stat refl

  Loaded-IsUsable :
      {st : State} {disk : Disk} {b : Bool} {st' : State}
      → Loaded st disk b st'
      → IsUsable st
      → IsUsable st' × (b ≡ is_loaded st'.loaded)
  Loaded-IsUsable (missing gone) h = ((λ r e. absurd (let q : ⊥ = cc in q)), refl)
  Loaded-IsUsable (kept now here why) h = (h, refl)
  Loaded-IsUsable (taken now lines here found good) h =
      ((λ r e. let same : parse punycode lines ≡ r = cc in rw same at good), refl)

  -- If the list that is loaded, if any, is usable, then after `_load` it is too, whatever the file
  -- system answers, and `_load` returns whether there is one.
  pub load-IsUsable :
      (st : State) (disk : Disk)
      → IsUsable st
      → IsUsable (load punycode st disk).1
        × ((load punycode st disk).0 ≡ is_loaded (load punycode st disk).1.loaded)
  load-IsUsable st disk h = Loaded-IsUsable (load-Loaded st disk) h
