-- ===== src/Psl/Sequences.antt =====
-- Which rules are in use after calls of `_load` of src/libtb/psl, whatever happened to the file.
use turkey_bite.Prelude.{
  ◌≡◌, refl, sym, ap, ◌∙◌, inl, inr, Bool, true, Option, none, some, List, [], ◌∷◌, Option-cases,
  some-injective, if◌then◌else◌, nat_eq, All, arith,
}
use turkey_bite.Text.{Text}
use turkey_bite.Psl.{
  Rules, parse, usable, Identity, same_identity, State, Disk, forgotten, is_current, load,
}
use turkey_bite.Psl.Loading.{Loaded, missing, kept, taken, load-Loaded}

same_identity_sound : (a b : Identity) → same_identity a b ≡ true → a ≡ b
same_identity_sound a b h = ground arith

module _ (punycode : Text → Option Text) where
  -- What one look at the file makes of the rules in use, with no memory of what file they came from:
  -- none without a file, those of the file if it is read and usable, else the same.
  abbrev pub looked : Option Rules → Option (List Text) → Option Rules
  looked rules none = rules
  looked rules (some lines) =
      if usable (parse punycode lines).rules then some (parse punycode lines) else rules

  abbrev pub after_look : Option Rules → Option Identity → Option (List Text) → Option Rules
  after_look rules none lines = none
  after_look rules (some now) lines = looked rules lines

  unfoldable pub in_use : Option Rules → List Disk → Option Rules
  in_use rules [] = rules
  in_use rules (d ∷ ds) = in_use (after_look rules d.stat d.lines) ds

  -- `_load` called each time the disk is so.
  unfoldable pub loads : State → List Disk → State
  unfolding load
  loads st [] = st
  loads st (d ∷ ds) = loads (load punycode st d).1 ds

  module _ (contents : Identity → List Text) where
    -- A file that is read has the lines that its identity tells.
    abbrev pub Tells : Disk → Type 0
    Tells d =
        (now : Identity) (lines : List Text)
        → d.stat ≡ some now
        → d.lines ≡ some lines
        → lines ≡ contents now

    IsFrom : State → Type 0
    IsFrom st =
        (old : Identity)
        → st.identity ≡ some old
        → (usable (parse punycode (contents old)).rules ≡ true)
          × (st.loaded ≡ some (parse punycode (contents old)))

    -- The file that the rules came from would be taken again, and change nothing.
    again :
        (st : State) (d : Disk) (now : Identity)
        → IsFrom st
        → Tells d
        → d.stat ≡ some now
        → is_current st.identity now ≡ true
        → looked st.loaded d.lines ≡ st.loaded
    unfolding IsFrom
    again st d now h tells here current = elim (Option-cases st.identity) [
      | inl e ↦ let no : ⊥ = (let z = rw e at current in cc) in absurd no
      | inr (old, e) ↦
          let same : old ≡ now = same_identity_sound old now (rw e at current) in
          let (good, from) = h now (e ∙ ap some same) in
          elim (Option-cases d.lines) [
            | inl unread ↦ rw unread refl
            | inr (lines, found) ↦
                let told : lines ≡ contents now = tells now lines here found in
                ap (looked st.loaded) (found ∙ ap some told) ∙ rw good (sym from)
          ]
    ]

    step :
        (st : State) (d : Disk) {b : Bool} {st' : State}
        → Loaded punycode st d b st'
        → IsFrom st
        → Tells d
        → (st'.loaded ≡ after_look st.loaded d.stat d.lines) × IsFrom st'
    unfolding IsFrom
    step st d (missing gone) h tells = (rw gone refl, λ old e. let no : ⊥ = cc in absurd no)
    step st d (kept now here why) h tells = (
      rw here (
          sym (elim why [
            | inl current ↦ again st d now h tells here current
            | inr other ↦ elim other [
              | inl unread ↦ rw unread refl
              | inr (lines, found, bad) ↦ rw (found, bad) refl
            ]
          ])),
      h,
    )
    step st d (taken now lines here found good) h tells = (
      rw (here, found, good) refl,
      λ old e.
          let same : now ≡ old = some-injective e in
          let told : lines ≡ contents old = tells now lines here found ∙ ap contents same in
          (
            ap (λ l. usable (parse punycode l).rules) (sym told) ∙ good,
            ap (λ l. some (parse punycode l)) told,
          ),
    )

    loads-from :
        (st : State) (disks : List Disk)
        → IsFrom st
        → All Tells disks
        → (loads st disks).loaded ≡ in_use st.loaded disks
    unfolding loads in_use
    loads-from st [] h w = refl
    loads-from st (d ∷ ds) h (tells, w) =
        let (e, h') = step st d (load-Loaded punycode st d) h tells in
        loads-from (load punycode st d).1 ds h' w ∙ ap (λ rules. in_use rules ds) e

    -- From a fresh start, where a file's identity tells its content: after any calls of `_load`, the
    -- rules in use are those that the looks at the file give one after the other without regard to its
    -- identity. None are in use after a look that found no file, those of a file that was read and is
    -- usable come into use, and a file that cannot be read, or is not usable, changes nothing.
    pub loads-in_use :
        (disks : List Disk) → All Tells disks → (loads forgotten disks).loaded ≡ in_use none disks
    unfolding IsFrom
    loads-in_use disks w = loads-from forgotten disks (λ old e. let no : ⊥ = cc in absurd no) w
