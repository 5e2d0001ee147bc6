-- ===== src/ManifestLoader/Steps/Moves.antt =====
-- Every step of lambdas/manifest_loader/handler.py keeps the invariant.
use ledgerflow_payment_recon.Prelude.{refl, List, [], ◌∷◌, inl, inr, eq_String}
use ledgerflow_payment_recon.Prelude.Int.{eq_ℤ}
use ledgerflow_payment_recon.Services.{KeyValue, IsLawful}
use ledgerflow_payment_recon.ManifestLoader.{Publication}
use ledgerflow_payment_recon.ManifestLoader.Register.{World}
use ledgerflow_payment_recon.Interleaving.{Runs-Holds, Grows}
use ledgerflow_payment_recon.ManifestLoader.Steps.{
  Worker, System, Move, arrive, copy, copy_rejected, apply, refuse, read, start, leave, Steps,
  IsFresh,
}
use ledgerflow_payment_recon.ManifestLoader.Steps.Consistent.{
  Entry, entry_of, WorkerOk, WorkerOk-Grows, IsShared, IsConsistent, After, OkIn, applied-eq,
  refused-eq,
}
use ledgerflow_payment_recon.ManifestLoader.Steps.Put.{
  IsShared-put, IsShared-copies, IsShared-start, IsLogged-read,
}

same : {A : Type 0} (l : List A) → Grows l l
same l x m = m

module _ (kv : KeyValue Publication) (law : IsLawful kv) where
  Move-Kept :
      (log : List Entry) (w : World kv.Items) {p : Worker} {v : World kv.Items} {q : Worker}
      → Move kv w p v q
      → IsShared kv log w
      → WorkerOk log w.copies p
      → (log2 : List Entry) × After kv log w log2 v × IsShared kv log2 v × OkIn kv log2 v q
  Move-Kept log w (arrive sv event d e) s k = (log, (same log, same w.copies), s, (sv, event, e))
  Move-Kept log w (copy sv d checksum e) s k =
      (log, (same log, λ x m. inr m), IsShared-copies kv law log w d s, (k, inl refl))
  Move-Kept log w (copy_rejected d) s k =
      (log, (same log, λ x m. inr m), IsShared-copies kv law log w d s, tt)
  Move-Kept log w (apply fault d written e) s (v, c) =
      let (n, number, may, put) = applied-eq kv fault d.request w.table written e in
      (
        entry_of n d.request ∷ log,
        (λ x m. inr m, same w.copies),
        IsShared-put kv law log w n d.request written s may put,
        (v, c, λ live. (n, number, inl refl)),
      )
  Move-Kept log w (refuse fault d n e) s (v, c) =
      (log, (same log, same w.copies), s, (v, c, refused-eq kv fault d.request w.table n e))
  Move-Kept log w (read fault n d reg e) s (v, c, number) = (
    log,
    (same log, same w.copies),
    s,
    (v, c, λ live. IsLogged-read kv law log w fault n d.request reg s number e live),
  )
  Move-Kept log w (start reg d live) s (v, c, logged) =
      (log, (same log, same w.copies), IsShared-start kv law log w d v c (logged live) s, tt)
  Move-Kept log w (leave p) s k = (log, (same log, same w.copies), s, tt)

  pub Steps-IsConsistent :
      (log : List Entry) {s t : System kv}
      → Steps kv s t
      → IsConsistent kv log s
      → (log2 : List Entry) × After kv log s.world log2 t.world × IsConsistent kv log2 t
  Steps-IsConsistent =
      Runs-Holds (World kv.Items) Worker (Move kv) (List Entry) (IsShared kv) (OkIn kv) (After kv)
        (λ log w. (same log, same w.copies))
        (λ g h k w v u a b. (λ x m. b.0 x (a.0 x m), λ x m. b.1 x (a.1 x m)))
        (λ g h w v p a k. WorkerOk-Grows g h w.copies v.copies p a.0 a.1 k)
        (λ log w v p q move s k. Move-Kept log w move s k)

  pub IsFresh-IsConsistent : (s : System kv) → IsFresh kv s → IsConsistent kv [] s
  IsFresh-IsConsistent s f = record {
    good = record {
      unique = λ a b m k d v. absurd m;
      bounded = λ a m. absurd m;
      current = λ date p h. let none_there = f.no_items date in absurd (cc);
      backed = λ x m. absurd (rw f.no_executions at m);
    };
    all_ok = λ i. rw (f.all_idle i) tt;
  }
