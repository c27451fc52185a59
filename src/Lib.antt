-- ===== src/Lib.antt =====
-- Verification of the core logic of the OMS/WMS/TMS platform: orders, warehouse picking, transport, and the
-- transactional outbox that carries their events, with the accounts, tokens, request limits, pages and cache that
-- they share.
--
-- How the parts interact. The service functions (src/oms/service.py, src/wms, src/tms/service.py) each run in
-- one database session: they read rows, check them, change them, and commit once at their end. An exception ends
-- the request and the session is rolled back (src/core/database.py, get_db). `create_order` also writes an event
-- to the outbox in its transaction (src/core/outbox.py, append_event); `update_order_status`
-- announces the change to webhooks in its session, after its own commit (src/webhooks/service.py, _do_dispatch), which
-- also goes through the outbox; the request commits that at its end.
--
-- How it is modelled.
--   * A service function is a `Txn` on a record of tables (Prelude.Calls): it returns a value and the new tables,
--     or raises an error that carries no tables. A table is a list of rows in insertion order (Prelude.Table);
--     `by_id`, `put`, `select`, `update_where` stand for the queries by key, the flush of a loaded row, WHERE and
--     UPDATE ... WHERE. Concurrent writers are represented by the order of calls, since every call is one
--     transaction; for the outbox, `locked` marks the rows that another transaction holds, and for the stock adjustment
--     the commits of others come between its reads and its writes.
--   * UUIDs and times are numbers; the text of an id in a request is `RawId`, which is none where it is malformed.
--     Amounts and quantities of Numeric(20, 4) columns are integers of ten-thousandths (Prelude.Int).
--   * `ORDER BY` is a parameter `OrderBy` that returns a sorted permutation (Prelude.OrderBy), instantiated by
--     insertion sort in the tests; the database's order of texts is a parameter of `pick_from_stock`.
--   * Redis is a parameter: a record of the commands that are used, with their laws (Auth.Tokens.Redis,
--     Core.RateLimiter.SortedSet). A command can be answered, fail, or be done with its answer lost (Prelude.Reply).
--     So are the hash of passwords, JSON web tokens, and OFFSET and LIMIT of the database.
--   * What an enumeration column makes of a text (`update_return_status`), what a column of two places keeps of an amount
--     (`to_cents` of create_order and split_order), and which articles the session has loaded (`loaded` of
--     pick_from_stock, which raises MissingGreenlet for another one) are function parameters. Whether the object of
--     `_get_session` can be entered, and with what error not, is one of the outbox operations (`Entering`).
--
-- Files.
--   * Prelude: shared names, tests, lists, calls, tables, integers, quantified conditions.
--   * Outbox: src/core/outbox.py; Outbox/Dispatch is about the poll, Outbox/Retries about mark_failed, Outbox/Lifecycle
--     about the events under all operations.
--   * Auth/Model, Auth/Service: src/auth/models.py and src/auth/service.py; Auth/Service/Steps, History and Assigning
--     hold the proofs. Auth/Tokens: src/auth/token_store.py and the token functions of src/auth/service.py; its
--     children are about operations one after another, tokens that are spent, found and refreshed.
--   * Core/MemoryCache: MemoryCache of src/cache/redis_client.py. Core/RateLimiter: src/core/rate_limiter.py.
--     Core/Pagination: src/core/pagination.py. Their children hold the proofs.
--   * Oms/Model, Oms/Orders, Oms/Service: src/oms/models.py and src/oms/service.py; Oms/Service/Transitions,
--     Progress, Creation and Deletion hold the proofs. Oms/Webhooks: _do_dispatch of src/webhooks/service.py, without the
--     delivery. Oms/Merge: split_order and get_merge_group of src/oms/merge.py.
--   * Wms/Model, Wms/Picking, Wms/Waves, Wms/Counting: src/wms/models.py, src/wms/services/picking_service.py
--     (pick_from_stock, complete_pick), src/wms/service.py (picking waves and packing, adjust_stock_count);
--     Wms/Adjusting: adjust_inventory and _pick_batches of src/wms/service.py, with the commits of others between its
--     reads and its writes; Reading and Locking hold the proofs.
--     Wms/Picking/Refinement and Rows compare the loop with a plan, Wms/Waves/History is about sequences of calls,
--     Wms/Counting/Effect about one count.
--   * Tms/Model, Tms/Transports, Tms/Tracking, Tms/Segments, Tms/Returns: src/tms/models.py and the status functions and
--     create_tracking_event of src/tms/service.py; Tms/Requests serves requests one after another, the History modules are about them.
--     Tms/Routing, Tms/Routing/Plan: _dijkstra and _find_best_route_plan_impl of src/tms/service.py;
--     Walks, Steps, Rounds, Invariant, Ends and Answer lead to the proofs about _dijkstra, Cheapest to those about
--     the plan.
--
-- Bounds. Loops are structural recursion on lists, but for two. The decimal text of a number n in Oms/Merge has the
-- fuel n + 1, and n has no more digits than that. The loop of _dijkstra has fuel; two rounds more than there are
-- connections are enough, which Tms/Routing/Ends shows, and Tms/Routing/Plan gives it as many. Its heap is a
-- parameter with the laws of heapq, of whose items the order is left open (Tms.Routing.Heapq). The three attempts of
-- adjust_inventory are written out; what others commit in each is a function. Numbers are unbounded, as Python's
-- are; the column widths of the database are not modelled.
--
-- Not modelled: the FastAPI routers and schemas (glue), the cache decorators, the Celery tasks (that of the outbox
-- polls and marks in separate transactions), the HTTP delivery of webhooks, notifications, web sockets,
-- connectors, barcodes, analytics, forecasting, the mobile and web clients, logging and tracing. Of the services
-- the listings, merge_orders, the master data (warehouses, locations, vendors, devices, hubs), stock_in and stock_out,
-- purchase orders and invoices, generate_route_plan and the Redis cache of route plans. Error messages are left out; notifications and web socket messages
-- are recorded as signals in the order in which they are sent.
pub mod Prelude
pub mod Auth
pub mod Core
pub mod Oms
pub mod Outbox
pub mod Tms
pub mod Wms
