-- ===== src/ManifestLoader/Steps/Agree.antt =====
-- What the executions that concurrent calls of lambdas/manifest_loader/handler.py start have in common.
use ledgerflow_payment_recon.Prelude.{
  String, ◌≡◌, refl, sym, ap, ◌∙◌, List, [], some, ◌⊎◌, inl, inr, eq_String,
}
use ledgerflow_payment_recon.Prelude.Int.{ℤ, ◌≤ℤ◌, ◌<ℤ◌, ≤ℤ-cases}
use ledgerflow_payment_recon.Json.{as_plain_int}
use ledgerflow_payment_recon.Services.{KeyValue, IsLawful}
use ledgerflow_payment_recon.ManifestLoader.{Publication, Request, Execution}
use ledgerflow_payment_recon.ManifestLoader.Verify.{Delivery, verified_key}
use ledgerflow_payment_recon.ManifestLoader.Checked.{verify-IsChecked}
use ledgerflow_payment_recon.ManifestLoader.Register.{execution_of}
use ledgerflow_payment_recon.Interleaving.{In}
use ledgerflow_payment_recon.ManifestLoader.Steps.{System, Steps, IsFresh}
use ledgerflow_payment_recon.ManifestLoader.Steps.Consistent.{
  Entry, entry_of, IsVerified, IsLogged, IsConsistent,
}
use ledgerflow_payment_recon.ManifestLoader.Steps.Moves.{Steps-IsConsistent, IsFresh-IsConsistent}

abbrev AgreeOn : Request → Request → Type 0
AgreeOn a b =
    (a.sha256 ≡ b.sha256)
    × (a.verified_data_key ≡ b.verified_data_key)
    × ((execution_of a).name ≡ (execution_of b).name)

keys_agree :
    (a b : Request)
    → a.verified_data_key ≡ verified_key a.business_date a.revision a.sha256
    → b.verified_data_key ≡ verified_key b.business_date b.revision b.sha256
    → a.business_date ≡ b.business_date
    → a.revision ≡ b.revision
    → a.sha256 ≡ b.sha256
    → AgreeOn a b
keys_agree a b ka kb d v s = (s, rw (ka, kb, d, v, s) refl, rw (d, v, s) refl)

verified_agree :
    (a b : Delivery)
    → IsVerified a
    → IsVerified b
    → a.request.business_date ≡ b.request.business_date
    → a.request.revision ≡ b.request.revision
    → a.request.sha256 ≡ b.request.sha256
    → AgreeOn a.request b.request
verified_agree a b (sa, ea, va) (sb, eb, vb) d v s =
    let (_, _, _, _, _, ca, _, _, _) = verify-IsChecked sa ea a va in
    let (_, _, _, _, _, cb, _, _, _) = verify-IsChecked sb eb b vb in
    keys_agree a.request b.request ca.keyed cb.keyed d v s

logged_agree :
    (kv : KeyValue Publication) (log : List Entry) (s : System kv) (a b : Request)
    → IsConsistent kv log s
    → IsLogged log a
    → IsLogged log b
    → a.business_date ≡ b.business_date
    → a.revision ≡ b.revision
    → a.sha256 ≡ b.sha256
logged_agree kv log s a b c (n, na, la) (k, nb, lb) d v =
    let same : n ≡ k = cc (na, nb, v) in c.good.unique (entry_of n a) (entry_of k b) la lb d same

module _ (kv : KeyValue Publication) (law : IsLawful kv) where
  -- From a state where no call of the manifest loader is under way and nothing is registered, and
  -- over a table whose reads see the writes, any interleaving of calls, each of which may fail or
  -- end between two service calls, starts only executions of which two for the same business date
  -- and the same revision have the same checksum, the same verified key and the same name.
  pub executions_agree :
      (s t : System kv) (a b : Execution)
      → IsFresh kv s
      → Steps kv s t
      → In a t.world.executions
      → In b t.world.executions
      → a.input.business_date ≡ b.input.business_date
      → a.input.revision ≡ b.input.revision
      → (a.input.sha256 ≡ b.input.sha256)
        × (a.input.verified_data_key ≡ b.input.verified_data_key)
        × (a.name ≡ b.name)
  executions_agree s t a b f steps m k d v =
      let (log, _, c) = Steps-IsConsistent kv law [] steps (IsFresh-IsConsistent kv law s f) in
      let (da, va, _, la, ea) = c.good.backed a m in
      let (db, vb, _, lb, eb) = c.good.backed b k in
      let dates =
        sym (ap (λ (x : Execution). x.input.business_date) ea)
        ∙ d
        ∙ ap (λ (x : Execution). x.input.business_date) eb in
      let revisions =
        sym (ap (λ (x : Execution). x.input.revision) ea)
        ∙ v
        ∙ ap (λ (x : Execution). x.input.revision) eb in
      let sha = logged_agree kv log t da.request db.request c la lb dates revisions in
      rw (ea, eb) (verified_agree da db va vb dates revisions sha)

  -- After any interleaving of calls of the manifest loader from a state without calls, copies,
  -- executions and items, over a table whose reads see the writes, each execution that was
  -- started is that of a delivery which passed the checks and was copied, and its revision is a
  -- number that is not above the one that the table has for its business date.
  pub executions_backed :
      (s t : System kv) (x : Execution)
      → IsFresh kv s
      → Steps kv s t
      → In x t.world.executions
      → (d : Delivery) × (p : Publication) × (n : ℤ) × (x ≡ execution_of d.request)
        × In d t.world.copies
        × IsVerified d
        × (as_plain_int d.request.revision ≡ some n)
        × (kv.item t.world.table d.request.business_date ≡ some p)
        × (n ≤ℤ p.revision)
  executions_backed s t x f steps m =
      let (log, _, c) = Steps-IsConsistent kv law [] steps (IsFresh-IsConsistent kv law s f) in
      let (d, v, copied, (n, number, logged), e) = c.good.backed x m in
      let (p, i, le) = c.good.bounded _ logged in (d, p, n, e, copied, v, number, i, le)

  -- Along any interleaving of calls of the manifest loader, from a state that is reached from one
  -- without calls, copies, executions and items, the item of a business date stays, and its
  -- revision goes up or both its revision and its checksum stay the same.
  pub revisions_increase :
      (r s t : System kv) (date : String) (p : Publication)
      → IsFresh kv r
      → Steps kv r s
      → Steps kv s t
      → kv.item s.world.table date ≡ some p
      → (q : Publication) × (kv.item t.world.table date ≡ some q)
        × ((p.revision <ℤ q.revision)
            ⊎ ((p.revision ≡ q.revision) × (p.manifest_sha256 ≡ q.manifest_sha256)))
  revisions_increase r s t date p f before after i =
      let (log, _, c) = Steps-IsConsistent kv law [] before (IsFresh-IsConsistent kv law r f) in
      let (log2, (grows, _), d) = Steps-IsConsistent kv law log after c in
      let m = grows _ (c.good.current date p i) in
      let (q, j, le) = d.good.bounded _ m in
      elim (≤ℤ-cases p.revision q.revision le) [
        | inl less ↦ (q, j, inl less)
        | inr e ↦ (q, j, inr (e, d.good.unique _ _ m (d.good.current date q j) refl e))
      ]
