-- ===== src/Tests/Tasks.antt =====
-- Jobs, the submission of a sale and concurrent payments at concrete inputs.
use bims_shopify.Base.{
  ℕ, ◌≤◌, max, Bool, true, false, none, List, [], ◌∷◌, count, length, All, ok, ◌≡◌, ◌⊎◌, arith,
  ◌==◌, ltb, if◌then◌else◌,
}
use bims_shopify.Jobs.{
  Status, OpsJob, System, Event, request, acquire, begin, process_restart, steps, died, no_jobs,
  is_running_status, key_of, ImportTenant, maybe_enqueue,
}
use bims_shopify.Jobs.Flight.{single_flight}
use bims_shopify.Jobs.Orphans.{queued_import, queued_import_blocks}
use bims_shopify.Sales.{SaleResultKind, success, unconfirmed, SaleResult, Erp, process_order}
use bims_shopify.Sales.Once.{is_cut, process_order_ends}

-- Two requests of one import, of which one waits for the lock until the first has ended.
abbrev two_imports : List Event
two_imports =
    request 1 "import" true none 10
    ∷ request 1 "import" false none 11
    ∷ acquire (1, "import") 0
    ∷ acquire (1, "import") 1
    ∷ begin (1, "import") 0 12
    ∷ []

single_flight_example :
    let jobs = (steps two_imports no_jobs).jobs in
    All
      (λ a.
        All
          (λ b.
            is_running_status a.status ≡ true
            → is_running_status b.status ≡ true
            → key_of a ≡ key_of b
            → (a.id ≡ b.id)
              ⊎ ((died two_imports no_jobs a.id ≡ true) ⊎ (died two_imports no_jobs b.id ≡ true)))
          jobs)
      jobs
single_flight_example = single_flight two_imports

abbrev lost : OpsJob
lost = record {
  id = 0;
  tenant_id = 1;
  command = "import";
  scheduled = true;
  since = none;
  status = Status.queued;
  created_at = 10;
  started_at = none;
  finished_at = none;
}

abbrev before_restart : System
before_restart = record { jobs = lost ∷ []; waiting = ((1, "import"), 0) ∷ []; held = λ k. none }

abbrev opted_in : ImportTenant
opted_in = record { id = 1; auto_import_interval_minutes = 60 }

queued_import_blocks_example :
    let t = steps (process_restart 20 ∷ request 1 "import" false none 30 ∷ []) before_restart in
    (1 ≤ count (queued_import 1 0) t.jobs) × ((maybe_enqueue opted_in 9000 t).1 ≡ t)
queued_import_blocks_example =
    queued_import_blocks opted_in 0 before_restart 20 9000 (request 1 "import" false none 30 ∷ [])
      (omega arith) (omega arith)

abbrev sold_as : SaleResultKind → SaleResult
sold_as kind = record {
  kind = kind;
  data_of = none;
  message = none;
  retry_after_ms = none;
  operation_id = none;
}

-- The first attempt is unconfirmed and did not book, the second is a success, and so are replays.
abbrev second_books : Erp
second_books = record {
  create_or_update_sale = λ n. if ltb 1 n then ok (sold_as success) else ok (sold_as unconfirmed);
  verify_sale_synced =
      λ n. ok (record { already_synced = if ltb 1 n then true else false; sale = none });
}

abbrev second : ℕ → Bool
second n = n == 2

process_order_ends_example :
    (is_cut (process_order second_books 3).ending ≡ false)
    × (length (process_order second_books 3).attempts ≤ max 1 3)
process_order_ends_example = process_order_ends second_books 3
