-- ===== src/Lib.antt =====
-- Verification of Ojuri, a self-hosted fraud detection platform.
--
-- Parts. The decision service (src/) answers each transaction: it looks the request up under its
-- idempotency key, runs the PRE rules, loads the features, scores, runs the POST rules and writes the
-- decision to the audit queue. The profile service (paa-service/) consumes the published
-- transactions, keeps velocity windows and a graph in memory, and writes the features that the
-- decision service reads; one instance at a time, the holder of a lease, does so.
--
-- Files.
--   Prelude      shared names and lemmas: native numbers, lists, Boolean tests, association lists.
--   Enums        src/shared/enums.
--   Audit        src/shared/audit: Record is DecisionAuditRecord with toInsertRow; Queue is
--                AuditWriteQueue. `flush` awaits the insert, so it is flush_begin and flush_end, and
--                the answer of Postgres is an argument.
--   Rules        src/shared/rules: Value is the JSON value of an expression, Evaluator is
--                evaluator.ts, Validation is rule-validation.ts, Service is the cache and the passes
--                of rules.service.ts with rule.repo.ts, Manage its create, update and delete.
--                Numbers, inherited properties and object identity are those of the JavaScript
--                engine: the record Host, a parameter.
--   Velocity     paa-service/src/services/velocity.service.ts: the sorted transactions of each sender,
--                the eviction, the cap on senders, and the metrics.
--   Predict      src/v1/modules/rda: Types has the values of predict.types.ts with the factories,
--                Decide is `predict` up to `finalize`, Finalize the three audit modes with the
--                synchronous write of decision-audit.service.ts, Execute is
--                `executePrediction` over Idempotency.
--   Lease        paa-service/src/services/leader-lease.service.ts: the operations of one instance over a
--                parameter Redis, and Cluster, any number of instances, their commands and the
--                replies in any order.
--   Redis        what the services use of Redis, as a parameter, and a concrete store for examples.
--   Idempotency  src/shared/idempotency/idempotency.service.ts: the cached responses, the lock, the
--                reservation of a transaction id and the cap on a tenant's keys; Canonical is the hash
--                of a body. JSON, gzip, SHA-256 and the order of texts are parameters.
--   Graph        paa-service/src/services/graph.service.ts: Service and Transaction are the state and
--                `addTransaction`, Metrics the scores, Path the search for fraud users, Hydrate the
--                restoring. Graphology is a parameter.
--   Webhook      src/shared/webhooks/url-guard.ts.
--   Training     src/v1/modules/training/services/csv-row.parser.ts.
--   Calibration  src/shared/onnx/calibration.ts: the breakpoints and their interpolation.
--   Password     src/shared/authz/password-policy.ts.
--
-- Interfaces. Predict decides by the passes of Rules.Service, writes through the queue of Audit.Queue
-- and is executed over Idempotency. What the other services, Postgres and Kafka answer is an argument:
-- the records Services and Answers of Predict, and Answer of Audit.Queue. Redis and graphology are
-- parameters with their documented behaviour, in IsRedis and HasSortedSets of Redis and IsGraph of
-- Graph.Graphology. Floating-point operations are the records Float of Velocity.Metrics and Numbers of
-- Graph.Service.
--
-- Bounds. `stop` of the queue runs on the source's own count of attempts. The binary search of
-- Velocity runs on one step more than the list is long, that of Calibration on as many as there are
-- breakpoints, which suffices. The evaluator and the walk of
-- the validation recurse on the value. Times and counts are natural numbers.
--
-- The instances of Lease handle each reply at most a delay, a parameter, after its command. `JSON.parse`
-- of a rule's expression is a parameter of Rules.Service.
--
-- Requests of one key interleave as the steps of Idempotency.Locked; in Predict.Execute the
-- prediction is a function on the store, which may do what other requests do meanwhile. The search for
-- fraud users runs on the source's own depth of 4. `Math.floor(maxNodes * 0.1)` is the quotient by 10.
--
-- Not modelled: timers, logging and metrics other than the counters named; Kafka, Redis, Postgres and
-- graphology themselves; model inference and the feature catalogue; authentication; the delivery of
-- webhooks; the HTTP controllers; the Python services; the dashboard.
pub mod Prelude
pub mod Enums
pub mod Audit
pub mod Rules
pub mod Redis
pub mod Velocity
pub mod Graph
pub mod Lease
pub mod Idempotency
pub mod Predict
pub mod Calibration
pub mod Webhook
pub mod Password
pub mod Training
