-- ===== src/ManifestLoader/Steps/Refines.antt =====
-- A call of `handler` in lambdas/manifest_loader/handler.py that no other call disturbs is one of the
-- runs of the steps.
use ledgerflow_payment_recon.Prelude.{ℕ, String, ◌≡◌, ◌≢◌, refl, ◌∷◌, Option}
use ledgerflow_payment_recon.Prelude.Int.{ℤ}
use ledgerflow_payment_recon.Prelude.Result.{Result, ok, err}
use ledgerflow_payment_recon.Json.{Fields}
use ledgerflow_payment_recon.Services.{KeyValue, Failure}
use ledgerflow_payment_recon.ManifestLoader.{
  Publication, Start, started, already_exists, start_failed, Services,
}
use ledgerflow_payment_recon.ManifestLoader.Verify.{Delivery, verify}
use ledgerflow_payment_recon.ManifestLoader.Register.{
  World, Registration, active, duplicate, stale, Update, applied, condition_failed, update_failed,
  execution_of, update_item, get_item, register_revision, registration_after, start_answer,
  start_registered, after_registration, check_copy, register_checked, copy_answer, copy_delivery,
  verify_answer, handler,
}
use ledgerflow_payment_recon.Interleaving.{Moves, done, more, Moves-Runs, here}
use ledgerflow_payment_recon.ManifestLoader.Steps.{
  Worker, idle, checked, copied, refused, registered, System, Move, arrive, copy, copy_rejected,
  apply, refuse, read, start, leave, Steps,
}

module _ (kv : KeyValue Publication) (sv : Services) where
  -- The moves of one worker to the end of its call.
  abbrev Call : World kv.Items → Worker → World kv.Items → Type 0
  Call w p v = Moves (World kv.Items) Worker (Move kv) w p v idle

  leaves : (w : World kv.Items) (p : Worker) → Call w p w
  leaves w p = more (leave p) done

  start_answer-Moves :
      (reg : Registration) (d : Delivery) (w : World kv.Items) (a : Start)
      → reg ≢ stale
      → Call w (registered reg d) (start_answer kv sv reg d.request w a).0
  unfolding start_answer
  start_answer-Moves reg d w (started arn) live = more (start reg d live) done
  start_answer-Moves reg d w already_exists live = leaves w (registered reg d)
  start_answer-Moves reg d w (start_failed code) live = leaves w (registered reg d)

  start_registered-Moves :
      (d : Delivery) (w : World kv.Items) (reg : Registration)
      → Call w (registered reg d) (start_registered kv sv d.request w (ok reg)).0
  unfolding start_registered
  start_registered-Moves d w stale = leaves w (registered stale d)
  start_registered-Moves d w active =
      start_answer-Moves active d w (sv.start_execution (execution_of d.request)) (λ e. cc)
  start_registered-Moves d w duplicate =
      start_answer-Moves duplicate d w (sv.start_execution (execution_of d.request)) (λ e. cc)

  get_item-Moves :
      (d : Delivery) (w : World kv.Items) (n : ℤ) (r : Result Failure Registration)
      → get_item kv sv.get_item_fault n d.request w.table ≡ r
      → Call w (refused n d) (start_registered kv sv d.request w r).0
  unfolding start_registered
  get_item-Moves d w n (err failure) e = leaves w (refused n d)
  get_item-Moves d w n (ok reg) e =
      more (read sv.get_item_fault n d reg e) (start_registered-Moves d w reg)

  update_item-Moves :
      (d : Delivery) (w : World kv.Items) (u : Update kv.Items)
      → update_item kv sv.update_fault d.request w.table ≡ u
      → Call w
          (copied d)
          (after_registration kv sv d.request w (registration_after kv sv d.request w.table u)).0
  unfolding after_registration registration_after
  update_item-Moves d w (applied written) e =
      more (apply sv.update_fault d written e)
        (start_registered-Moves d (record w { table = written }) active)
  update_item-Moves d w (condition_failed n) e =
      more (refuse sv.update_fault d n e)
        (get_item-Moves d w n (get_item kv sv.get_item_fault n d.request w.table) refl)
  update_item-Moves d w (update_failed failure) e = leaves w (copied d)

  copy_answer-Moves :
      (d : Delivery) (w : World kv.Items) (a : Result Failure (Option String))
      → Call w (checked d) (copy_answer kv sv d w a).0
  unfolding copy_answer register_checked register_revision
  copy_answer-Moves d w (err failure) = leaves w (checked d)
  copy_answer-Moves d w (ok checksum) = check (check_copy kv sv d checksum) refl
    where
      check :
          (r : Result Failure (Unit {0}))
          → check_copy kv sv d checksum ≡ r
          → Call w
              (checked d)
              (register_checked kv sv d.request (record w { copies = d ∷ w.copies }) r).0
      check (err failure) e = more (copy_rejected d) done
      check (ok _) e =
          let v = record w { copies = d ∷ w.copies } in
          more (copy sv d checksum e)
            (update_item-Moves d v (update_item kv sv.update_fault d.request v.table) refl)

  handler-Moves : (event : Fields) (w : World kv.Items) → Call w idle (handler kv sv event w).0
  unfolding handler verify_answer copy_delivery
  handler-Moves event w = check (verify sv event) refl
    where
      check :
          (r : Result Failure Delivery)
          → verify sv event ≡ r
          → Call w idle (verify_answer kv sv w r).0
      check (err failure) e = done
      check (ok d) e = more (arrive sv event d e) (
          copy_answer-Moves d w (
            sv.copy_object d.request.bucket d.data_key d.request.source_version_id d.head.etag
              d.request.verified_data_key))

  -- A call of the manifest loader's handler, with any services and whether it returns or raises,
  -- is a run of the interleaved steps of one idle worker that ends in the handler's tables with
  -- the worker idle again.
  pub handler-Steps :
      (s : System kv) (i : ℕ) (event : Fields)
      → s.workers i ≡ idle
      → (t : System kv) × Steps kv s t
        × (t.world ≡ (handler kv sv event s.world).0)
        × (t.workers i ≡ idle)
  handler-Steps s i event free =
      Moves-Runs (World kv.Items) Worker (Move kv) i (handler-Moves event s.world) s s here refl
        free
