-- ===== src/ManifestLoader/Steps.antt =====
-- Calls of `handler` of lambdas/manifest_loader/handler.py that run at the same time: each call of a
-- service is one step, the steps of all workers interleave, and a call may end after any of them.
pub mod Consistent
pub mod Put
pub mod Moves
pub mod Agree
pub mod Refines
use ledgerflow_payment_recon.Prelude.{
  ℕ, String, ◌≡◌, ◌≢◌, List, [], ◌∷◌, Option, none, ◌⊎◌, nat_eq, if◌then◌else◌,
}
use ledgerflow_payment_recon.Prelude.Int.{ℤ}
use ledgerflow_payment_recon.Prelude.Result.{ok}
use ledgerflow_payment_recon.Json.{Fields, as_plain_int}
use ledgerflow_payment_recon.Interleaving.{State, Runs}
use ledgerflow_payment_recon.Services.{KeyValue, Failure}
use ledgerflow_payment_recon.ManifestLoader.{Publication, Request, Execution, started, Services}
use ledgerflow_payment_recon.ManifestLoader.Verify.{Delivery, verify}
use ledgerflow_payment_recon.ManifestLoader.Register.{
  World, Registration, active, stale, Update, applied, condition_failed, execution_of, update_item,
  get_item, check_copy,
}

-- Where a call of the handler stands.
pub data Worker : Type 0 where
  idle : Worker
  checked : Delivery → Worker
  copied : Delivery → Worker
  refused : ℤ → Delivery → Worker
  registered : Registration → Delivery → Worker

module _ (kv : KeyValue Publication) where
  -- One service call of a worker, with the services as it finds them.
  pub data Move (w : World kv.Items) : Worker → World kv.Items → Worker → Type 0 where
    arrive :
        (sv : Services) (event : Fields) (d : Delivery)
        → verify sv event ≡ ok d
        → Move w idle w (checked d)
    copy :
        (sv : Services) (d : Delivery) (checksum : Option String)
        → check_copy kv sv d checksum ≡ ok tt
        → Move w (checked d) (record w { copies = d ∷ w.copies }) (copied d)
    copy_rejected : (d : Delivery) → Move w (checked d) (record w { copies = d ∷ w.copies }) idle
    apply :
        (fault : Option Failure) (d : Delivery) (written : kv.Items)
        → update_item kv fault d.request w.table ≡ applied written
        → Move w (copied d) (record w { table = written }) (registered active d)
    refuse :
        (fault : Option Failure) (d : Delivery) (n : ℤ)
        → update_item kv fault d.request w.table ≡ condition_failed n
        → Move w (copied d) w (refused n d)
    read :
        (fault : Option Failure) (n : ℤ) (d : Delivery) (reg : Registration)
        → get_item kv fault n d.request w.table ≡ ok reg
        → Move w (refused n d) w (registered reg d)
    start :
        (reg : Registration) (d : Delivery)
        → reg ≢ stale
        → Move w
            (registered reg d)
            (record w { executions = execution_of d.request ∷ w.executions })
            idle
    -- An error, an answer that starts nothing, or the end of the process.
    leave : (p : Worker) → Move w p w idle

  abbrev pub System : Type 0
  System = State (World kv.Items) Worker

  -- A run of the interleaved calls.
  abbrev pub Steps : System → System → Type 0
  Steps = Runs (World kv.Items) Worker Move

  -- No call is under way, and nothing was copied, registered or started.
  pub record IsFresh (s : System) : Type 0 where
    pub all_idle : (i : ℕ) → s.workers i ≡ idle
    pub no_copies : s.world.copies ≡ []
    pub no_executions : s.world.executions ≡ []
    pub no_items : (date : String) → kv.item s.world.table date ≡ none
