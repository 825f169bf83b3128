-- ===== src/Tbql/Ensures.antt =====
-- What a result holds of its value, where it has one, and the rule for a chain of steps.
use turkey_bite.Prelude.{ℕ, ◌≡◌, subst}
use turkey_bite.Tbql.{Mistake, Result, ok, failed, ◌>>=◌}

pub data Ensures {ℓ κ} {A : Type ℓ} (P : A → Type κ) : Result A → Type (ℓ ⊔ κ) where
  holds : (a : A) → P a → Ensures P (ok a)
  fails : (m : Mistake) (p n : ℕ) → Ensures P (failed m p n)

pub bind-Ensures {ℓ κ μ ν} :
    {A : Type ℓ} {B : Type κ} {P : A → Type μ} {Q : B → Type ν} {m : Result A} {f : A → Result B}
    → Ensures P m
    → ((a : A) → P a → Ensures Q (f a))
    → Ensures Q (m >>= f)
bind-Ensures (holds a h) k = k a h
bind-Ensures (fails m p n) k = fails m p n

pub weaken-Ensures {ℓ κ μ} :
    {A : Type ℓ} {P : A → Type κ} {Q : A → Type μ} {m : Result A}
    → Ensures P m
    → ((a : A) → P a → Q a)
    → Ensures Q m
weaken-Ensures (holds a h) k = holds a (k a h)
weaken-Ensures (fails m p n) k = fails m p n

-- The value of a result that is there.
pub ensured {ℓ κ} :
    {A : Type ℓ} {P : A → Type κ} {m : Result A} (a : A) → Ensures P m → m ≡ ok a → P a
ensured {P} a (holds b h) e = subst P (value_path e) h
  where
    value_path : ok b ≡ ok a → b ≡ a
    value_path e = cc
ensured a (fails m p n) e = absurd (let z : ⊥ = cc in z)
