-- ===== src/Transport/Commands.antt =====
-- The commands of Valkey on strings that src/libtb/index/transport.py sends, with what its
-- documentation says of them.
use turkey_bite.Prelude.{◌≡◌, refl, Option, none, some, if◌then◌else◌, ◌==◌, nat_eq, list_eq}
use turkey_bite.Text.{Text}

pub record Strings : Type 1 where
  pub Store : Type 0
  pub get : Store → Text → Option Text
  pub set : Text → Text → Store → Store
  pub delete : Text → Store → Store
  pub get-set :
      (k v : Text) (s : Store) (j : Text) → get (set k v s) j ≡ (if j == k then some v else get s j)
  pub get-delete :
      (k : Text) (s : Store) (j : Text) → get (delete k s) j ≡ (if j == k then none else get s j)

-- A store in memory shows that the laws can be met.
abbrev pub in_memory : Strings
in_memory = record {
  Store = Text → Option Text;
  get = λ s k. s k;
  set = λ k v s j. if j == k then some v else s j;
  delete = λ k s j. if j == k then none else s j;
  get-set = λ k v s j. refl;
  get-delete = λ k s j. refl;
}
