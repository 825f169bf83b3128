-- ===== src/Transport/RoundTrip.antt =====
-- From the librarian's file to the workers', through src/libtb/index/transport.py.
use turkey_bite.Prelude.{some-injective, ℕ, ◌<◌, ◌≡◌, sym, ap, subst, ◌∙◌, false, some}
use turkey_bite.Text.{Text}
use turkey_bite.Text.Number.Decimal.{str}
use turkey_bite.Transport.{
  Outside, Manifest, Local, local_generation, is_generation, publish, fetch_if_stale,
}
use turkey_bite.Transport.Machine.{Stage, Reach}
use turkey_bite.Transport.Publishing.{publish-Published}
use turkey_bite.Transport.Fetching.{fetch_if_stale_quiet}

module _ (o : Outside) (k : ℕ) (content : ℕ → Text) where
  open o.valkey use {Store}

  -- After a publish in blocks of one byte at least, begun at any moment of publishing, a worker whose copy is of another generation,
  -- or has none, and that fetches before the next one begins holds the file that was published,
  -- under that generation's marker.
  pub fetch_if_stale-publish :
      (st : Stage) (s : Store) (b : ℕ) (copy : Local) (m : Manifest) (s' : Store)
      → 0 < k
      → Reach o k content st s
      → publish o k (content b) b s ≡ some (m, s')
      → is_generation (local_generation copy) b ≡ false
      → (fetch_if_stale o (λ n. s') copy).1
        ≡ record { file = some (content b); marker = some (str b) }
  fetch_if_stale-publish st s b copy m s' pos r e stale =
      let p = publish-Published o k content st s b pos r in
      let same : p.store ≡ s' =
        ap (λ (x : Manifest × Store). x.1) (some-injective (sym p.result ∙ e)) in
      let quiet =
        fetch_if_stale_quiet o k content pos Stage.idle p.store copy p.manifest p.reached p.current
          (subst (λ n. is_generation (local_generation copy) n ≡ false) (sym p.generation) stale) in
      subst
        (λ t.
          (fetch_if_stale o (λ n. t) copy).1
          ≡ record { file = some (content b); marker = some (str b) })
        same
        (ap (λ r. r.1) quiet.0
          ∙ ap (λ n. record { file = some (content n); marker = some (str n) }) p.generation)
