-- ===== src/Transport/Blocks.antt =====
-- A file as the blocks of `k` bytes that `fh.read(k)` gives one after the other.
use turkey_bite.Prelude.{
  ℕ, zero, suc, ◌+◌, ◌<◌, ◌≡◌, refl, sym, ap, ◌∙◌, true, [], ◌∷◌, ◌++◌, arith, take, drop,
  append-nil, take-append-drop,
}
use turkey_bite.Text.{Text}
use turkey_bite.Transport.{is_empty}

-- Where block `n` begins.
abbrev pub offset : ℕ → ℕ → ℕ
offset k zero = 0
offset k (suc n) = offset k n + k

-- The bytes of block `n`: fewer than `k` in the last one, none behind it.
abbrev pub block : ℕ → Text → ℕ → Text
block k content n = take k (drop (offset k n) content)

pub offset_next : (k n : ℕ) → offset k (n + 1) ≡ offset k n + k
offset_next k n = let e : n + 1 ≡ suc n = omega arith in ap (offset k) e

drop-nil : (k : ℕ) (c : Text) → c ≡ [] → drop k c ≡ []
drop-nil zero c e = e
drop-nil (suc k) [] e = refl
drop-nil (suc k) (x ∷ c) e = cc

take-nil : (k : ℕ) (c : Text) → c ≡ [] → take k c ≡ []
take-nil zero c e = refl
take-nil (suc k) [] e = refl
take-nil (suc k) (x ∷ c) e = cc

pub drop-drop : (n k : ℕ) (c : Text) → drop k (drop n c) ≡ drop (n + k) c
drop-drop zero k c = let e : 0 + k ≡ k = omega arith in rw e refl
drop-drop (suc n) k [] = drop-nil k [] refl ∙ sym (drop-nil (suc n + k) [] refl)
drop-drop (suc n) k (x ∷ c) =
    let e : suc n + k ≡ suc (n + k) = omega arith in rw e (drop-drop n k c)

pub take-append-take : (n k : ℕ) (c : Text) → take n c ++ take k (drop n c) ≡ take (n + k) c
take-append-take zero k c = let e : 0 + k ≡ k = omega arith in rw e refl
take-append-take (suc n) k [] = take-nil k [] refl ∙ sym (take-nil (suc n + k) [] refl)
take-append-take (suc n) k (x ∷ c) =
    let e : suc n + k ≡ suc (n + k) = omega arith in rw (e, take-append-take n k c) refl

-- A read that gives nothing has met the end of the file.
at_end : (k : ℕ) (c : Text) → 0 < k → is_empty (take k c) ≡ true → c ≡ []
at_end zero c h e = absurd (omega arith)
at_end (suc k) [] h e = refl
at_end (suc k) (x ∷ c) h e = cc

pub take_all : (k n : ℕ) (c : Text) → 0 < k → is_empty (take k (drop n c)) ≡ true → take n c ≡ c
take_all k n c h e =
    sym (append-nil (take n c))
    ∙ ap (λ (r : Text). take n c ++ r) (sym (at_end k (drop n c) h e))
    ∙ take-append-drop n c

-- The first blocks put together are the beginning of the file.
pub take_next :
    (k n : ℕ) (c : Text) → take (offset k n) c ++ block k c n ≡ take (offset k (n + 1)) c
take_next k n c = take-append-take (offset k n) k c ∙ ap (λ i. take i c) (sym (offset_next k n))

pub drop_next : (k n : ℕ) (c : Text) → drop k (drop (offset k n) c) ≡ drop (offset k (n + 1)) c
drop_next k n c = drop-drop (offset k n) k c ∙ ap (λ i. drop i c) (sym (offset_next k n))
