-- ===== src/Lib.antt =====
-- bims-shopify keeps a Shopify store's stock in step with the BIMS ERP and lets buyers of its orders
-- pay at a bank. This library models the parts of src/bims_shopify that decide what is written.
--
-- The parts and their files. All numbers of stock and money are integers in units of 10⁻⁹, which is
-- the tolerance the code itself uses; rounding of floats is not modelled. A dict is an association
-- list (Base/Dict), JSON values are Values.Value, a raised exception is `err` of Base/Results.
--
--   Stock         domain/stock_consolidation.py: the figure of a SKU from its warehouses and the
--                 unfiltered total (decide_sellable_stock), and the report of disagreements.
--   Snapshot      domain/snapshot.py, domain/product.py, application/snapshot_gate.py and
--                 adapters/snapshot_erp.py: catalog rows, their resolution to products
--                 (resolve_product_snapshots), and the gate before a write (snapshot_decline).
--   Generations   adapters/persistence/snapshot_repository.py: the three tables of catalog
--                 generations as one record Db. stage, promote, record_rejected, set_stats and the
--                 reads are functions on it; the commits of a staging are the steps inside stage
--                 (delete_rows, abandon_all, open_generation, write_rows, and in abort delete_rows
--                 and mark_failed). A failing write is an oracle on the chunk's number, and a killed
--                 process is the store after one of those commits (cut_off). A promotion with its
--                 purge is not cut off.
--   Pull          application/pull_snapshot.py: check_sanity and PullCatalogSnapshot.run over the
--                 store of Generations; the record World holds what the run meets: the ERP's answer,
--                 the clock, the statistics hook and the wording of JSON and warnings.
--   Inventory     application/sync_inventory.py: the safety guard, the report buckets and the batch
--                 writer; Shopify's answer to the n-th batch is an oracle.
--   Reconcile     application/reconcile_inventory.py: the plan from Shopify's quantities and the
--                 snapshot, and its application through the guard and the writer.
--   Payments      application/payments.py over domain/payment.py and the processed events and payment
--                 intents of adapters/persistence: HandlePaymentCallback, SettleVerifiedPayment (the
--                 answers of provider and storefront, and which writes of the claim and the intent
--                 fail, are the record Answers; reads and the claim's insertion do not fail) and, in
--                 Payments/Links, CreatePaymentLink.
--   Vpos          domain/bancard_vpos.py: operation numbers and the reading of the bank's answers.
--
--   Paging        adapters/bims/paging.py: paginate_products with its windows of requests; the
--                 server's answer to an offset is the parameter fetch.
--   Titles, Catalog  ops/catalog.py: the reading of names, the gates and the grouping of rows into products; Catalog/Import is
--                 apply_import with the plan of added variants, Catalog/Dedupe and Catalog/Stocked
--                 are the commands dedupe, cleanup_no_stock and publish. The shop's answers are
--                 parameters (Shop, Answer), the calls that write are a list of Write.
--   Healing       ops/self_heal.py: create_missing, which runs apply_import of Catalog on the groups
--                 that the scan of the shop lacks.
--   Jobs          ops/job_runner.py and ops/auto_import.py: the rows of ops_jobs, the locks and the
--                 tasks as a System, a stretch of a task between two waits as an Event, a restart
--                 and an exception that escapes at any point (die) included, and the coordinator of automatic imports (maybe_enqueue).
--   Sales         application/process_shopify_order.py: ProcessShopifyOrder.run against the answers of
--                 BIMS to each attempt (Erp).
--
-- Base holds the shared names, list and integer lemmas; Tests the data and the runs of the theorems
-- at concrete inputs. Python's float and int of a text are parameters where settings or references
-- are read.
--
-- Bounds. Chunks of a list are cut on fuel, the list's length, which is enough because every chunk
-- takes at least one element (Base.Chunks.flatten-chunks). The pager has its limit on pages as fuel:
-- every round consumes one (Paging.Ending). A sale has max_retries + 1 rounds as fuel
-- (Sales.Once). The size in a name is scanned for at most six characters.
--
-- Not modelled: HTTP clients and providers (adapters/bims but for the pager, adapters/shopify,
-- adapters/payments), the payloads of the writes to Shopify, the API and the portal, the workers of
-- the scheduled cycle, the renaming of SKUs, rollbacks, the other commands of ops/catalog.py, reports,
-- logging, progress messages and audit entries that no decision reads.
pub mod Base
pub mod Stock
pub mod Values
pub mod Snapshot
pub mod Generations
pub mod Inventory
pub mod Reconcile
pub mod Pull
pub mod Payments
pub mod Tests
pub mod Vpos
pub mod Paging
pub mod Titles
pub mod Catalog
pub mod Jobs
pub mod Sales
pub mod Healing
