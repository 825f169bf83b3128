-- ===== src/Psl/Tests.antt =====
-- Runs of the Public Suffix List module, and its theorems at them.
use turkey_bite.Prelude.{
  ℕ, zero, suc, ◌≡◌, ◌≢◌, refl, sym, subst, true, some-injective, Option, some, none, List, [], ◌∷◌,
}
use turkey_bite.Text.{Text, text, split}
use turkey_bite.Json.{str}
use turkey_bite.Psl.{
  Rules, Disk, Identity, State, forgotten, is_loaded, load, parse, trim_host, public_suffix,
  registrable_domain, ascii_form, usable,
}
use turkey_bite.Psl.Longest.{Suffix, public_suffix-Suffix}
use turkey_bite.Psl.Owner.{Registrable, registrable_domain-Registrable}
use turkey_bite.Psl.Loading.{IsUsable, load-IsUsable}
use turkey_bite.Psl.Sequences.{in_use, loads, loads-in_use}

-- A codec that answers one text.
abbrev codec : Text → Option Text
codec label = some (text "55qx5d")

abbrev lines : List Text
lines =
    text "// a comment"
    ∷ text "com"
    ∷ text "co.uk  the rest is commentary"
    ∷ text "COM"
    ∷ text "*.ck"
    ∷ text "!www.ck"
    ∷ []

abbrev rules : Rules
rules = record {
  rules = text "co.uk" ∷ text "com" ∷ [];
  wildcards = text "ck" ∷ [];
  exceptions = text "www.ck" ∷ [];
}

parsed : parse codec lines ≡ rules
unfolding parse ascii_form
parsed = refl

punycode_rule : ascii_form codec (0x516c ∷ 0x53f8 ∷ text ".cn") ≡ some (text "xn--55qx5d.cn")
unfolding ascii_form
punycode_rule = refl

suffixes :
    (public_suffix (some rules) (str (text "News.BBC.co.uk.")) ≡ some (text "co.uk"))
    × (public_suffix (some rules) (str (text "a.b.ck")) ≡ some (text "b.ck"))
    × (public_suffix (some rules) (str (text "www.ck")) ≡ some (text "ck"))
    × (public_suffix (some rules) (str (text "host.local")) ≡ some (text "local"))
unfolding public_suffix
suffixes = (refl, refl, refl, refl)

owners :
    (registrable_domain (some rules) (str (text "news.bbc.co.uk")) ≡ some (text "bbc.co.uk"))
    × (registrable_domain (some rules) (str (text "co.uk")) ≡ none)
    × (registrable_domain (some rules) (str (text "x.www.ck")) ≡ some (text "www.ck"))
    × (registrable_domain none (str (text "news.bbc.co.uk")) ≡ some (text "co.uk"))
unfolding registrable_domain
owners = (refl, refl, refl, refl)

trimmed : trim_host (text "News.BBC.co.uk.") ≢ []
unfolding trim_host
trimmed = λ e. cc

public_suffix-Suffix_example :
    (suffix : Text) × (public_suffix (some rules) (str (text "News.BBC.co.uk.")) ≡ some suffix)
    × Suffix rules (split b'.' (trim_host (text "News.BBC.co.uk."))) suffix
public_suffix-Suffix_example = public_suffix-Suffix rules (text "News.BBC.co.uk.") trimmed

registrable_domain-Registrable_example :
    Registrable
      (text "co.uk")
      (trim_host (text "News.BBC.co.uk."))
      (registrable_domain (some rules) (str (text "News.BBC.co.uk.")))
registrable_domain-Registrable_example =
    registrable_domain-Registrable rules (text "News.BBC.co.uk.") (text "co.uk") suffixes.0
      (λ e. cc)

abbrev file : Identity
file = record { device = 1; inode = 2; modified = 3; size = 4 }

abbrev disk : Disk
disk = record { stat = some file; lines = some lines }

-- Rules as many as are asked for, from an older file.
many : ℕ → List Text
many zero = text "com" ∷ text "co.uk" ∷ text "github.io" ∷ []
many (suc n) = text "net" ∷ many n

old : State
unfolding many
old = record {
  identity = some (record { device = 1; inode = 1; modified = 2; size = 9 });
  loaded = some (record { rules = many 5000; wildcards = []; exceptions = [] });
}

old-IsUsable : IsUsable old
unfolding old many usable
old-IsUsable r e = subst (λ (l : Rules). usable l.rules ≡ true) (some-injective e) refl

load-IsUsable_example :
    IsUsable (load codec old disk).1
    × ((load codec old disk).0 ≡ is_loaded (load codec old disk).1.loaded)
load-IsUsable_example = load-IsUsable codec old disk old-IsUsable

abbrev unread : Disk
unread = record { stat = some file; lines = none }

abbrev gone : Disk
gone = record { stat = none; lines = none }

-- Neither a list that cannot be read nor a short one replaces what is in use; a file that is gone does.
kept_in_use :
    (in_use codec old.loaded (unread ∷ disk ∷ []) ≡ old.loaded)
    × (in_use codec old.loaded (unread ∷ gone ∷ disk ∷ []) ≡ none)
unfolding in_use parse ascii_form usable
kept_in_use = (refl, refl)

loads-in_use_example :
    (loads codec forgotten (unread ∷ disk ∷ unread ∷ gone ∷ disk ∷ [])).loaded
    ≡ in_use codec none (unread ∷ disk ∷ unread ∷ gone ∷ disk ∷ [])
loads-in_use_example =
    loads-in_use codec (λ i. lines) (unread ∷ disk ∷ unread ∷ gone ∷ disk ∷ [])
      (
        λ now l e h. let no : ⊥ = cc in absurd no,
        (
          λ now l e h. some-injective (sym h),
          (
            λ now l e h. let no : ⊥ = cc in absurd no,
            (λ now l e h. let no : ⊥ = cc in absurd no, (λ now l e h. some-injective (sym h), tt)),
          ),
        ),
      )
