-- ===== src/ManifestLoader/Steps/Consistent.antt =====
-- The invariant of concurrent calls of lambdas/manifest_loader/handler.py. The log of the writes that
-- `update_item` applied stands beside the state: it is not part of it.
use ledgerflow_payment_recon.Prelude.{
  String, ◌≡◌, ◌≢◌, true, List, Option, none, some, Option-cases, inl, inr, eq_String, eq_iff,
  arith, Bool-cases,
}
use ledgerflow_payment_recon.Prelude.Int.{ℤ, eq_ℤ, ◌≤ℤ◌}
use ledgerflow_payment_recon.Prelude.Result.{ok}
use ledgerflow_payment_recon.Json.{Fields, as_plain_int}
use ledgerflow_payment_recon.Services.{KeyValue, Failure}
use ledgerflow_payment_recon.ManifestLoader.{Publication, Request, Execution, Services}
use ledgerflow_payment_recon.ManifestLoader.Verify.{Delivery, verify}
use ledgerflow_payment_recon.ManifestLoader.Register.{
  World, Registration, stale, applied, condition_failed, publication, may_register, after_refusal,
  execution_of, update_item, get_item,
}
use ledgerflow_payment_recon.Interleaving.{Grows, Holds, In}
use ledgerflow_payment_recon.ManifestLoader.Steps.{
  Worker, idle, checked, copied, refused, registered, System,
}

-- A revision that was registered for a date.
pub record Entry : Type 0 where
  pub date : String
  pub revision : ℤ
  pub sha256 : String

abbrev pub entry_of : ℤ → Request → Entry
entry_of n r = record { date = r.business_date; revision = n; sha256 = r.sha256 }

abbrev pub IsVerified : Delivery → Type 0
IsVerified d = (sv : Services) × (event : Fields) × (verify sv event ≡ ok d)

abbrev pub IsLogged : List Entry → Request → Type 0
IsLogged log r = (n : ℤ) × (as_plain_int r.revision ≡ some n) × In (entry_of n r) log

abbrev pub Backed : List Entry → List Delivery → Execution → Type 0
Backed log copies x =
    (d : Delivery) × IsVerified d
    × In d copies
    × IsLogged log d.request
    × (x ≡ execution_of d.request)

abbrev pub WorkerOk : List Entry → List Delivery → Worker → Type 0
WorkerOk log copies idle = Unit
WorkerOk log copies (checked d) = IsVerified d
WorkerOk log copies (copied d) = IsVerified d × In d copies
WorkerOk log copies (refused n d) =
    IsVerified d × In d copies × (as_plain_int d.request.revision ≡ some n)
WorkerOk log copies (registered reg d) =
    IsVerified d × In d copies × (reg ≢ stale → IsLogged log d.request)

pub WorkerOk-Grows :
    (log log2 : List Entry) (copies copies2 : List Delivery) (p : Worker)
    → Grows log log2
    → Grows copies copies2
    → WorkerOk log copies p
    → WorkerOk log2 copies2 p
WorkerOk-Grows log log2 copies copies2 idle g c h = tt
WorkerOk-Grows log log2 copies copies2 (checked d) g c h = h
WorkerOk-Grows log log2 copies copies2 (copied d) g c (v, m) = (v, c d m)
WorkerOk-Grows log log2 copies copies2 (refused n d) g c (v, m, e) = (v, c d m, e)
WorkerOk-Grows log log2 copies copies2 (registered reg d) g c (v, m, l) =
    (v, c d m, λ live. let (n, e, k) = l live in (n, e, g (entry_of n d.request) k))

module _ (kv : KeyValue Publication) where
  -- What holds of the tables.
  pub record IsShared (log : List Entry) (w : World kv.Items) : Type 0 where
    pub unique :
        (a b : Entry)
        → In a log
        → In b log
        → a.date ≡ b.date
        → a.revision ≡ b.revision
        → a.sha256 ≡ b.sha256
    pub bounded :
        (a : Entry)
        → In a log
        → (p : Publication) × (kv.item w.table a.date ≡ some p) × (a.revision ≤ℤ p.revision)
    pub current :
        (date : String) (p : Publication)
        → kv.item w.table date ≡ some p
        → In (record { date = date; revision = p.revision; sha256 = p.manifest_sha256 }) log
    pub backed : (x : Execution) → In x w.executions → Backed log w.copies x

  -- The log and the copies of one state are in those of another.
  abbrev pub After : List Entry → World kv.Items → List Entry → World kv.Items → Type 0
  After log w log2 v = Grows log log2 × Grows w.copies v.copies

  abbrev pub OkIn : List Entry → World kv.Items → Worker → Type 0
  OkIn log w p = WorkerOk log w.copies p

  -- The invariant, of a log and a state.
  abbrev pub IsConsistent : List Entry → System kv → Type 0
  IsConsistent = Holds IsShared OkIn

  -- An applied write had a number for its revision, and its condition held.
  pub applied-eq :
      (fault : Option Failure) (r : Request) (items written : kv.Items)
      → update_item kv fault r items ≡ applied written
      → (n : ℤ) × (as_plain_int r.revision ≡ some n)
        × (may_register n (kv.item items r.business_date) ≡ true)
        × (kv.put items r.business_date (publication n r) ≡ written)
  unfolding update_item
  applied-eq (some failure) r items written h = cc
  applied-eq none r items written h = elim (Option-cases (as_plain_int r.revision)) [
    | inl e ↦ let k = rw e at h in cc
    | inr (n, e) ↦ elim (Bool-cases (may_register n (kv.item items r.business_date))) [
      | inl c ↦ (n, e, c, let k = rw (e, c) at h in cc)
      | inr c ↦ let k = rw (e, c) at h in cc
    ]
  ]

  pub refused-eq :
      (fault : Option Failure) (r : Request) (items : kv.Items) (n : ℤ)
      → update_item kv fault r items ≡ condition_failed n
      → as_plain_int r.revision ≡ some n
  unfolding update_item
  refused-eq (some failure) r items n h = cc
  refused-eq none r items n h = elim (Option-cases (as_plain_int r.revision)) [
    | inl e ↦ let k = rw e at h in cc
    | inr (k, e) ↦ elim (Bool-cases (may_register k (kv.item items r.business_date))) [
      | inl c ↦ let k = rw (e, c) at h in cc
      | inr c ↦ let k = rw (e, c) at h in cc
    ]
  ]

  after_refusal-eq :
      (n : ℤ) (r : Request) (p : Publication) (reg : Registration)
      → after_refusal n r (some p) ≡ ok reg
      → reg ≢ stale
      → (p.revision ≡ n) × (p.manifest_sha256 ≡ r.sha256)
  unfolding after_refusal
  after_refusal-eq n r p reg h live = ground (arith, h, live, eq_iff p.manifest_sha256 r.sha256)

  -- The item that a live registration after a refusal has read is the request's own.
  pub read-eq :
      (fault : Option Failure) (n : ℤ) (r : Request) (items : kv.Items) (reg : Registration)
      → get_item kv fault n r items ≡ ok reg
      → reg ≢ stale
      → (p : Publication) × (kv.item items r.business_date ≡ some p)
        × (p.revision ≡ n)
        × (p.manifest_sha256 ≡ r.sha256)
  unfolding get_item after_refusal
  read-eq (some failure) n r items reg h live = cc
  read-eq none n r items reg h live = elim (Option-cases (kv.item items r.business_date)) [
    | inl e ↦ let k = rw e at h in cc
    | inr (p, e) ↦
        let (revision, sha) = after_refusal-eq n r p reg (rw e at h) live in (p, e, revision, sha)
  ]
