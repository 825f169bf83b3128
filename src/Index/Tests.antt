-- ===== src/Index/Tests.antt =====
-- Runs of the index on a small file, and the theorems at it.
use turkey_bite.Prelude.{◌≡◌, ◌<◌, refl, true, false, Option, some, [], ◌∷◌, arith, nat_eq, list_eq}
use turkey_bite.Prelude.Members.{In, here, there}
use turkey_bite.Text.{Text, text}
use turkey_bite.Evidence.{medium, Source}
use turkey_bite.Index.{
  File, find, name_at, claims_for, probes, match_probes, match_host, claim_of, DomainIndex,
  reload_if_changed,
}
use turkey_bite.Index.Search.{IsSorted, find_iff}
use turkey_bite.Index.Memo.{IsGood, said, match_probes-said}
use turkey_bite.Index.Matching.{Applies, match_host-Applies}

abbrev public_list : Source
public_list = record {
  name = text "p";
  publisher = text "pub";
  trust = medium;
  is_local = false;
  derived_from = [];
}

abbrev own_list : Source
own_list = record {
  name = text "o";
  publisher = text "own";
  trust = medium;
  is_local = true;
  derived_from = [];
}

abbrev small_file : File
small_file = record {
  names = text "com.*" ∷ text "com.acme.*" ∷ text "com.acme.www" ∷ [];
  attr_index = 2 ∷ 0 ∷ 1 ∷ [];
  attr_table =
      ((public_list, text "news") ∷ [])
      ∷ ((public_list, text "mail") ∷ [])
      ∷ ((public_list, text "bad") ∷ (own_list, text "it") ∷ [])
      ∷ [];
}

abbrev site : Text
site = text "www.acme.com"

abbrev owner_name : Option Text
owner_name = some (text "acme.com")

small_file-IsSorted : IsSorted small_file.names
small_file-IsSorted = ((refl, (refl, tt)), ((refl, tt), (tt, tt)))

find_com : find small_file (text "com.acme.*") ≡ some 1
unfolding find
find_com = refl

find_iff_example : (1 < 3) × (name_at 1 small_file.names ≡ text "com.acme.*")
find_iff_example = (find_iff small_file (text "com.acme.*") 1 small_file-IsSorted).0 find_com

empty_memo-IsGood : IsGood small_file []
empty_memo-IsGood = record { coherent = tt; small = omega arith }

three_claims_found :
    (match_host small_file site owner_name []).0
    ≡ claim_of site (public_list, text "mail")
      ∷ claim_of (text "*.acme.com") (public_list, text "news")
      ∷ claim_of (text "*.com") (own_list, text "it")
      ∷ []
unfolding match_host claims_for
three_claims_found = refl

match_probes-said_example :
    ((match_probes small_file (probes site owner_name) []).0
      ≡ said small_file (probes site owner_name))
    × IsGood small_file (match_probes small_file (probes site owner_name) []).1
match_probes-said_example =
    match_probes-said small_file (probes site owner_name) [] empty_memo-IsGood

match_host-Applies_example :
    Applies small_file site owner_name (claim_of (text "*.com") (own_list, text "it"))
match_host-Applies_example =
    (match_host-Applies small_file site owner_name []
        (claim_of (text "*.com") (own_list, text "it")) refl empty_memo-IsGood).0
      present
  where
    present :
        In
          (claim_of (text "*.com") (own_list, text "it"))
          (match_host small_file site owner_name []).0
    present = rw three_claims_found (there (there (here refl)))

abbrev before_reload : DomainIndex
before_reload = record {
  identity = record { dev = 1; ino = 7; mtime = 100; size = 40 };
  file = small_file;
  memo = [];
}

abbrev after_reload : DomainIndex
after_reload = record {
  identity = record { dev = 1; ino = 8; mtime = 160; size = 40 };
  file = small_file;
  memo = [];
}

file_reloaded :
    reload_if_changed
      (some after_reload.identity)
      (some (after_reload.identity, small_file))
      before_reload
    ≡ some (true, after_reload)
unfolding reload_if_changed
file_reloaded = refl
