-- ===== src/Lib.antt =====
-- One-Mail: the fleet of shards and what a shard's worker keeps about itself.
--
-- One-Mail runs a mailbox on several Cloudflare accounts. A durable object, the fleet registry,
-- decides which shard owns a mailbox; each shard counts the rows that its D1 database has read and
-- written, in its isolates and in another durable object; the unified mailbox reads a map of the
-- shards, guards the admin surface, merges what the shards answer, and prunes its backups. This
-- library models those parts of worker/src and proves what holds of them.
--
-- Files and code.
--   * Fleet/Contracts: the data and errors of worker/src/fleet/contracts.ts. Fleet/Validation: the
--     checked arithmetic of validation.ts. Fleet/Parse and below: its readers of request bodies,
--     dates and the published snapshot, from JSON values to the data of Contracts.
--   * Fleet/Metrics and Fleet/Placement: worker/src/fleet/placement.ts, the series of an account's
--     metrics (`updateMetricSeries`) and the choice of a shard (`choosePlacement`).
--   * Fleet/Registry: worker/src/fleet/registry_do.ts. The state of the object is a record with an
--     index for each prefix of the storage's keys; Configure, Import, Allocate and Tombstone hold
--     the handlers, Service the transaction of `fetch` (replay, revision, pruning of operations,
--     `execute`, commit), `plan` and the reads. A handler is a function of the transaction's state
--     that returns the new state and the answer, or the FleetError that it throws; a transaction
--     that throws leaves the storage as it was (`serve`). `serve_all` runs a history of commands.
--     The other modules there are proofs.
--   * Quota/Coordinator: worker/src/core/d1_quota_coordinator_do.ts. `handle` is a call, `cleanup`
--     the alarm, `respond_all` a history of both, in the order in which the object's chain puts
--     them. Quota/Telemetry: worker/src/core/d1_quota.ts, the variables of an isolate. A flush
--     awaits, so it is a state machine (`Phase`) that goes on when the answer comes (`Signal`),
--     and rows may be recorded in between.
--   * Unified/ShardMap, Unified/Lockout, Unified/Merge, Unified/Pages: worker/src/unified/
--     shard_map.ts, admin_lockout.ts and shard_merge.ts. Pages holds the merge on a heap and, in
--     Pages/Reference, a merge without one to compare it with.
--   * Send and below: worker/src/mails_api/send_mail_limit_utils.ts and send_balance.ts. Send holds
--     the tables with their triggers, Writes and Balance each statement or batch as a step,
--     History the steps of concurrent requests in the order in which D1 runs them, Limits the
--     configuration and the functions that are composed of steps, Reroutes the idempotency keys of
--     replies that Gmail sends (pruned by worker/src/unified/job_pruning.ts). The others are proofs.
--   * Mutation and below: worker/src/unified/mutation_jobs.ts and the older claim endpoint of
--     mutation_claim_legacy.ts. Writes holds the statements and batches on the jobs, Reports what an
--     agent says of a job, History the writes of concurrent requests and the handlers of agents that
--     are composed of them, Handlers the requests of users, Removals the deletions of jobs by
--     `pruneTerminalJobs` of worker/src/unified/job_pruning.ts and by the purge of accounts of
--     worker/src/unified/shard_routes.ts.
--   * Backup: worker/src/backup/retention.ts, with the date of a key from keys.ts.
--   * Base: the Boolean tests, lists and dictionaries that they share.
--
-- How the parts meet. The bodies that Fleet/Parse reads are the commands that the registry serves,
-- and a configuration that was read has the positive limits that the soundness of the placement
-- asks for. An isolate of Quota/Telemetry sends its batches to Quota/Coordinator, which counts each
-- of them once however often it is sent.
--
-- Numbers. Counters are natural numbers with the test on Number.MAX_SAFE_INTEGER where the code
-- makes it; a sum above it is refused before it is used, so its rounding does not matter. An epoch
-- or revision is the number that its decimal text (a BigInt in the code) stands for. In Fleet and
-- Backup an instant is counted in milliseconds from the first midnight of year 0, and a date in
-- days from it; in Quota instants are those of Date.now() and a date is the number of its day from
-- the same first day of year 0, so that dates compare as their texts do. The time of a message in
-- Unified/Pages is a natural number; its id compares by UTF-16 units, as texts do in JavaScript.
--
-- Bounds. Fuel stands in three places. The loop over chunks of Unified/Merge is given the length of
-- the list; the descent of a head in Unified/Pages (`sift_down`) the length of the heap and one more,
-- since each round goes to a larger index, and the equality with the reference merge covers it;
-- Backup has the page limit of the code. The merge recurs on the rows that it may still take, and
-- the loops of the registry, the placement and the coordinator on their lists.
--
-- Parameters. `digest` stands for the fingerprint of a command, the SHA-256 of its path and canonical
-- text. `lower` stands for toLowerCase, `allowed` for the access check of a row, `targets` for the
-- query of a folder. `parse_url` stands for the platform's URL parser. Whether a KV namespace or the
-- coordinator answers, and with what, is part of each call.
--
-- Namespaces. The namespace of the admin counts is one store that reads its latest write; each access
-- may fail. The namespace of the shard map is what each load finds.
--
-- Tables. A table is the list of its rows in the order of their rowid, a statement a function on it
-- that also gives the number of changed rows; `ORDER BY … LIMIT` sorts and cuts the list. A batch is
-- one step, since D1 runs it as a transaction. The triggers on the reservations write only the
-- counters in `settings`, which are natural numbers here because nothing else writes them.
--
-- Not modelled: the HTTP framing (methods, headers, the size limit of a body), the logging, failures
-- of the durable storage itself, the percentages of the quota view (floating point), the proxies
-- around the D1 handle, and the pruning of outbound jobs. The frontend, the Python aggregator and
-- the other routes of the worker are outside this library.
pub mod Base
pub mod Fleet
pub mod Quota
pub mod Unified
pub mod Backup
pub mod Send
pub mod Mutation
