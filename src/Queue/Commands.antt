-- ===== src/Queue/Commands.antt =====
-- The commands of Valkey that src/libtb/queue sends, with what its documentation says of them.
use turkey_bite.Prelude.{
  ℕ, ◌≡◌, ◌≢◌, refl, Bool, true, false, Option, none, some, List, [], ◌∷◌, ◌++◌, reverse, drop,
  reverse-append, reverse-reverse, if◌then◌else◌, ◌==◌, nat_eq, list_eq,
}
use turkey_bite.Text.{Text}

-- `items` is what `LRANGE key 0 -1` answers and `value` what `GET key` does.
-- `lmove_left` is `LMOVE source target LEFT RIGHT`, from the head of one list to the tail of
-- another, and `lmove_right` is `LMOVE source target RIGHT LEFT`, the other way round.
-- `ltrim` drops that many items from the head, as `LTRIM key count -1`. `set_nx` is
-- `SET key value NX EX`, with whether it set. `expire` only changes when a key lapses.
pub record Valkey : Type 1 where
  pub Store : Type 0
  pub items : Store → Text → List Text
  pub value : Store → Text → Option Text
  pub rpush : Text → Text → Store → Store
  pub lmove_left : Text → Text → Store → Option Text × Store
  pub lmove_right : Text → Text → Store → Option Text × Store
  pub ltrim : Text → ℕ → Store → Store
  pub set_nx : Text → Text → ℕ → Store → Bool × Store
  pub set_ex : Text → Text → ℕ → Store → Store
  pub expire : Text → ℕ → Store → Store
  pub delete : Text → Store → Store
  pub items-rpush :
      (k x : Text) (s : Store) (j : Text)
      → items (rpush k x s) j ≡ (if j == k then items s k ++ x ∷ [] else items s j)
  pub value-rpush : (k x : Text) (s : Store) (j : Text) → value (rpush k x s) j ≡ value s j
  pub lmove_left_empty : (a b : Text) (s : Store) → items s a ≡ [] → lmove_left a b s ≡ (none, s)
  pub lmove_left_answer :
      (a b : Text) (s : Store) (x : Text) (xs : List Text)
      → items s a ≡ x ∷ xs
      → (lmove_left a b s).0 ≡ some x
  pub items-lmove_left :
      (a b : Text) (s : Store) (x : Text) (xs : List Text) (j : Text)
      → items s a ≡ x ∷ xs
      → a ≢ b
      → items (lmove_left a b s).1 j
        ≡ (if j == a then xs else if j == b then items s b ++ x ∷ [] else items s j)
  pub value-lmove_left :
      (a b : Text) (s : Store) (j : Text) → value (lmove_left a b s).1 j ≡ value s j
  pub lmove_right_empty : (a b : Text) (s : Store) → items s a ≡ [] → lmove_right a b s ≡ (none, s)
  pub lmove_right_answer :
      (a b : Text) (s : Store) (xs : List Text) (x : Text)
      → items s a ≡ xs ++ x ∷ []
      → (lmove_right a b s).0 ≡ some x
  pub items-lmove_right :
      (a b : Text) (s : Store) (xs : List Text) (x : Text) (j : Text)
      → items s a ≡ xs ++ x ∷ []
      → a ≢ b
      → items (lmove_right a b s).1 j
        ≡ (if j == a then xs else if j == b then x ∷ items s b else items s j)
  pub value-lmove_right :
      (a b : Text) (s : Store) (j : Text) → value (lmove_right a b s).1 j ≡ value s j
  pub items-ltrim :
      (k : Text) (n : ℕ) (s : Store) (j : Text)
      → items (ltrim k n s) j ≡ (if j == k then drop n (items s k) else items s j)
  pub value-ltrim : (k : Text) (n : ℕ) (s : Store) (j : Text) → value (ltrim k n s) j ≡ value s j
  pub set_nx_free :
      (k w : Text) (ttl : ℕ) (s : Store)
      → value s k ≡ none
      → set_nx k w ttl s ≡ (true, set_ex k w ttl s)
  pub set_nx_taken :
      (k w : Text) (ttl : ℕ) (s : Store) (u : Text)
      → value s k ≡ some u
      → set_nx k w ttl s ≡ (false, s)
  pub items-set_ex :
      (k w : Text) (ttl : ℕ) (s : Store) (j : Text) → items (set_ex k w ttl s) j ≡ items s j
  pub value-set_ex :
      (k w : Text) (ttl : ℕ) (s : Store) (j : Text)
      → value (set_ex k w ttl s) j ≡ (if j == k then some w else value s j)
  pub items-expire :
      (k : Text) (ttl : ℕ) (s : Store) (j : Text) → items (expire k ttl s) j ≡ items s j
  pub value-expire :
      (k : Text) (ttl : ℕ) (s : Store) (j : Text) → value (expire k ttl s) j ≡ value s j
  pub value-delete :
      (k : Text) (s : Store) (j : Text)
      → value (delete k s) j ≡ (if j == k then none else value s j)
  pub items-delete : (k : Text) (s : Store) (j : Text) → j ≢ k → items (delete k s) j ≡ items s j

-- A store in memory shows that the laws can be met.
pub record Memory : Type 0 where
  pub lists : Text → List Text
  pub values : Text → Option Text

abbrev pub update {ℓ} : {A : Type ℓ} → Text → A → (Text → A) → Text → A
update k a f j = if j == k then a else f j

abbrev push_last : Text → Text → Memory → Memory
push_last k x s = record s { lists = update k (s.lists k ++ x ∷ []) s.lists }

abbrev move_left_from : Text → Text → Memory → List Text → Option Text × Memory
move_left_from a b s [] = (none, s)
move_left_from a b s (x ∷ xs) =
    (some x, record s { lists = update a xs (update b (s.lists b ++ x ∷ []) s.lists) })

-- The list in reverse: its last item comes first.
abbrev move_right_from : Text → Text → Memory → List Text → Option Text × Memory
move_right_from a b s [] = (none, s)
move_right_from a b s (x ∷ back) =
    (some x, record s { lists = update a (reverse back) (update b (x ∷ s.lists b) s.lists) })

abbrev set_value : Text → Text → ℕ → Memory → Memory
set_value k w ttl s = record s { values = update k (some w) s.values }

abbrev set_if_free : Text → Text → ℕ → Memory → Option Text → Bool × Memory
set_if_free k w ttl s none = (true, set_value k w ttl s)
set_if_free k w ttl s (some u) = (false, s)

pub reverse_last : (xs : List Text) (x : Text) → reverse (xs ++ x ∷ []) ≡ x ∷ reverse xs
reverse_last xs x = reverse-append xs (x ∷ [])

module _ (a b : Text) (s : Memory) where
  pub left_value : (l : List Text) (j : Text) → (move_left_from a b s l).1.values j ≡ s.values j
  left_value [] j = refl
  left_value (x ∷ xs) j = refl

  pub right_value : (l : List Text) (j : Text) → (move_right_from a b s l).1.values j ≡ s.values j
  right_value [] j = refl
  right_value (x ∷ xs) j = refl

  pub right_lists :
      (xs : List Text) (x j : Text)
      → (move_right_from a b s (reverse (xs ++ x ∷ []))).1.lists j
        ≡ (if j == a then xs else if j == b then x ∷ s.lists b else s.lists j)
  right_lists xs x j = rw (reverse_last xs x, reverse-reverse)

abbrev pub memory : Valkey
memory = record {
  Store = Memory;
  items = λ s k. s.lists k;
  value = λ s k. s.values k;
  rpush = push_last;
  lmove_left = λ a b s. move_left_from a b s (s.lists a);
  lmove_right = λ a b s. move_right_from a b s (reverse (s.lists a));
  ltrim = λ k n s. record s { lists = update k (drop n (s.lists k)) s.lists };
  set_nx = λ k w ttl s. set_if_free k w ttl s (s.values k);
  set_ex = set_value;
  expire = λ k ttl s. s;
  delete = λ k s. record s { values = update k none s.values };
  items-rpush = λ k x s j. refl;
  value-rpush = λ k x s j. refl;
  lmove_left_empty = λ a b s e. rw e;
  lmove_left_answer = λ a b s x xs e. rw e;
  items-lmove_left = λ a b s x xs j e ne. rw e;
  value-lmove_left = λ a b s j. left_value a b s (s.lists a) j;
  lmove_right_empty = λ a b s e. rw e;
  lmove_right_answer = λ a b s xs x e. rw (e, reverse_last xs x);
  items-lmove_right = λ a b s xs x j e ne. rw e (right_lists a b s xs x j);
  value-lmove_right = λ a b s j. right_value a b s (reverse (s.lists a)) j;
  items-ltrim = λ k n s j. refl;
  value-ltrim = λ k n s j. refl;
  set_nx_free = λ k w ttl s e. rw e;
  set_nx_taken = λ k w ttl s u e. rw e;
  items-set_ex = λ k w ttl s j. refl;
  value-set_ex = λ k w ttl s j. refl;
  items-expire = λ k ttl s j. refl;
  value-expire = λ k ttl s j. refl;
  value-delete = λ k s j. refl;
  items-delete = λ k s j ne. refl;
}
