-- ===== src/Lib.antt =====
-- A model of the Kubernetes deployment monitor and of its correctness.
--
-- The program watches the deployments of many clusters. One informer for each cluster reports
-- additions, updates and deletions; an update that changes the hash of a pod template is a rollout
-- event. A debouncer coalesces the events of a deployment and sends them on, to targets that
-- analyze the rollout. The manager starts and stops the watchers as kubeconfig files come and go,
-- restarts the ones that fail, and seeds them with hashes that the hash store keeps in custom
-- resources. In split mode the monitor only records its events as custom resources, and replicas of
-- a dispatcher claim the records and send the events. Investigations of failed rollouts run in the
-- background, and a newer rollout of a deployment supersedes the older one.
--
-- Which file models which part:
--   Prelude: Boolean tests, lists, byte strings and association lists that the parts share.
--   Event: internal/models/event.go, `RolloutEvent`.
--   Persistence/Names: `sanitizeName` of internal/persistence/names.go, on ASCII bytes.
--   Persistence/HashStore: internal/persistence/hash_store.go. A `Client` record stands for the
--     Kubernetes API; `flush`, `upsert_cluster_state`, `buffer_hash`, `load_hashes` are the methods
--     of the same names. What other goroutines buffer during a flush is an argument, `arrivals`.
--   Persistence/Recorder: internal/persistence/audit_recorder.go.
--   Record: the RolloutRecord of api/v1alpha1/types.go, as structs and as JSON objects. Record/Server
--     is the API server that keeps the records: a `Client` with the calls, and records of the laws
--     that the clients rely on (versions that grow, updates on the stored version only).
--   Watcher/Filter: internal/watcher/namespace_filter.go.
--   Watcher/ConfigWatcher: internal/watcher/config_watcher.go.
--   Watcher/Debouncer: internal/watcher/debouncer.go. Timers, also those that are armed but no longer
--     in the map, and callbacks that have started are part of the state; Debouncer/Trace has their
--     interleavings as lists of steps.
--   Watcher/Informer: internal/watcher/informer.go. `on_add`, `on_update`, `on_delete` are the
--     handlers, and a history of the informer is a list of their calls, the newest first, each with
--     the namespace filter and the event enricher as they are at that time. A watch error has its
--     concrete Go type.
--   Watcher/Manager: internal/watcher/manager.go: `start`, `start_watcher` (startWatcherLocked) and
--     `stop`; Manager/Rescan has `rescan_directory`, Manager/Reconcile the other phases of
--     `reconcile`. A `World` says how each start ends, a `Tick` what one round of the loop meets.
--   Diagnostic: internal/diagnostic. Monitor and Conditions are `monitorRollout` and
--     `checkFailureConditions` of analyzer.go, Soak is `soak`, Report is `Analyze` and what it
--     gathers, Logs the filter of log lines; Target is target.go and registry.go. A run of the poll
--     loop is a list of polls, each with the answers that the API server gives then.
--   Watchlist: internal/watchlist/store.go, with the outcome of its API calls as arguments;
--     `put_checked` and `delete_checked` are `Put` and `Delete` with the store at their check and at
--     their commit, `put` and `delete` have nothing in between;
--     Watchlist/Persisted: `Put` with `upsertCRD`; Watchlist/Handler: internal/watchlist/handler.go.
--   Dispatch: internal/dispatch/dispatcher.go, where a target acts on a world `W`; Dispatch/Records is
--     record_watcher.go, Dispatch/Cleaner is ttl_cleaner.go, and Dispatch/Targets has the targets. A
--     `Step` of Records/Claims is one write to the API server, so that lists of steps are the
--     interleavings of the replicas.
--   Investigation: internal/investigation/orchestrator.go. The parts of `Investigate` and of its
--     goroutine between two locks are functions of their own; lists of `Op` are their interleavings.
--     Investigation/Cache is status_cache.go and the lookup of status_api.go.
--   Config/Directory: internal/config/kubeconfig.go; Config/Fields, Sources and Settings:
--     internal/config/config.go; Config/Environment: internal/config/env_config.go.
--   Monitor: what cmd/monitor/main.go decides: targets, checks at the start, the event enricher, the
--     callback of the dispatcher.
-- The modules below these have the proofs; the Examples modules run the model on concrete data.
--
-- Every map is an association list, and a Go loop over a map is a loop over that list, so that
-- what is proved holds for the order of the list, whatever it is. Times and durations are numbers
-- of nanoseconds. All loops are structural recursion; only the printing of a number counts down, and
-- from n + 1, which is more than the digits of n. A method that holds its mutex for its whole effect
-- is one function.
--
-- The counts that the API server reports are not negative; the sum of restart counts wraps at 32
-- bits as in the source. The poll loop is a recursion on the polls that take place, and the result
-- of a loop that has not ended is `none`.
--
-- The parsers of kubeconfig, YAML and JSON files, strconv.Atoi, the printing and parsing of times, and
-- the hash of a file are parameters. Texts of the settings are ASCII. The time to live of a record
-- is a number of days that is not negative, and wraps at 64 bits as a `time.Duration` does.
--
-- Not modelled: the reports of investigations to Slack, the requests to Holmes, the Kubernetes client,
-- logging, flags, signals and HTTP servers, which are input and output; generated deep copies; the
-- informer's own cache and `stripUnneededFields`; cmd/dispatcher/main.go, which only starts the
-- record watcher and the cleaner.
pub mod Config
pub mod Diagnostic
pub mod Dispatch
pub mod Event
pub mod Investigation
pub mod Monitor
pub mod Persistence
pub mod Prelude
pub mod Record
pub mod Watcher
pub mod Watchlist
