-- ===== src/Lib.antt =====
-- HIOC: the availability pipeline of a home infrastructure operations centre.
--
-- The program watches the expected availability of assets. Sources report observations; an
-- evaluator turns the observations of one asset, its policy and its profile into an availability
-- state with counters; the incident engine turns evaluations into cases with a lifecycle and into
-- an outbox of events; a dispatcher authorizes, claims and submits the events.
--
-- - Contract.antt, Contract/: pi4/lib/hioc/availability_contract.py, the closed validators
--   (`integer`, `identifier`, `uuid4`, `timestamp`), `validate_receipt`, `error_response` and the
--   depth test of `strict_json`. JSON documents are Contract/Json.
-- - Availability/: pi4/lib/hioc/availability.py. Types holds the records and closed sets, Validate
--   the validators, Digests the documents that are hashed, Evaluate the function `evaluate` with
--   its loop (`scan`) and its `finish`, Snapshot `evaluation_snapshot`, StatusRead
--   `validate_status` and `AvailabilityReader.read`. Evidence, Counters, Outage and History hold
--   the proofs.
-- - Incidents/: pi4/lib/hioc/availability_incidents.py. Types holds cases, events, grants and the
--   outbox, Validate `validate_state`, Cases `apply_evaluation`, `restart`, `summary` and
--   `displayed`, Dispatch `EngineState` and `Dispatcher`. Lifecycle, Transitions, Outbox, Reports,
--   Authorize, Submit, Attempt and Restart hold the proofs.
-- - Protocol/: pi4/lib/hioc/availability_protocol.py. Gate holds the clock, the nonces and the
--   quotas that `Protocol.handle` guards by its lock, Trust `IssuerTrust` and `_trust`, Envelope the
--   signed request with its tests and `reauthorize`, Handle `handle` with the service behind it.
--   Replay, Bounds, Authorized and Effects hold the proofs.
-- - Observation/: pi4/lib/hioc/availability_observation.py and `ObservationProtocol` of
--   availability_protocol.py. Collect holds `collect`, Store `ObservationStore.commit`, Receive
--   `ObservationProtocol.handle`. Refine, Handover and Safety hold the proofs.
-- - Policy/: the asset policy service, pi4/lib/hioc/asset_policy.py, with what it takes from
--   pi4/lib/hioc/assets.py. Types holds the stores of both schemas and the files, Normalize
--   `normalize_field`, Validate the validators, Files `PolicyStore` and `_commit` as state passing
--   over the files with an end for each write, Service the parts of `mutate_policy` that touch no
--   file, Operations `get_policy`, `operation_result`, `authorize_population` and `mutate_policy`,
--   Edits and Local the local commands `set_fields`, `set_policy_local`, `migrate` and
--   `restore_exact`. Commit, Replay, Decisions, Mutations,
--   Repeats and Edited hold the proofs.
-- - Correlation/: pi4/lib/hioc/core/correlation.py and core/monitoring.py. Types holds readings,
--   inventory, signals and incidents, Monitoring the policy of monitoring, Texts sets of texts in
--   order, Signals the three builders of signals, Correlate `correlate` and `lifecycle_phase`, and
--   Incident the proofs.
-- - Cycle/: the cycles of pi4/bin/hioc-incident-engine-v2.py. Step holds what `main` does with the
--   incident of a cycle, from the active incident and the history that it loads to those that it
--   saves, Recovery the proofs. `run_availability_cycle` puts the policy service, the evaluator, the
--   incident engine and the dispatcher together: Evaluation holds its loop over the assets, Notify
--   its loop over the outbox, Availability the whole with its two transactions and its publication.
--   Evaluation/Current, Notify/Sends, Availability/Order and Availability/Outcome hold the proofs.
-- - Review/: pi4/lib/hioc/core/incident_review.py. Types holds incidents and timelines, Order the
--   order of their lines, Report durations, services and the kind of a recovery, Gather
--   `timeline_for_incident`, Build `build_incident_report` and the reviewed history. Duration,
--   Lines and Timeline hold the proofs.
-- - Base/: Boolean tests over the native numbers, lists, dictionaries as association lists in the
--   order of insertion, and results. An error is a `PolicyError` with its code and the flag of an
--   uncertain commit, or any other exception.
-- - Examples/: concrete runs, to which the theorems are applied.
-- Hexadecimal identifiers and digests are numbers, one that is too large standing for a malformed
-- text; timestamps are microseconds since year 1, bounded by year 9999 as Python's `datetime` is.
-- An integer of a document is a natural number: no validator accepts a negative one. Where the
-- source tests for key sets and JSON types, the model has records and types.
--
-- Parameters: `digest` is the SHA-256 of the canonical text of a document, and nothing is assumed
-- of it; `oversized` says whether the canonical text of a document is too long, and `hmac` signs a
-- document by a key. The lookups of the trust, the readings of the clock and the files that other
-- processes leave are arguments of each request. `World` holds what the policy service takes from
-- outside, such as Unicode's classes and normal form, and the comparison and digests of documents;
-- `Python` the floating-point numbers and SHA-1 of the correlation, and the texts and times of the
-- review. In a cycle `equal` is Python's `==` of two states, the field `text_length` of an engine
-- measures the text of a state, and a `Setting` holds what other processes make of the
-- engine's file, how the publication ends and what the dispatcher meets at each event. A lock is
-- taken to be granted, and a read of a file that is there to succeed, but for the read of the status
-- after a local edit, whose end is an argument. The clock, fresh
-- UUIDs, the store of policies, the end of a disk write and the answer of a transport are arguments.
-- Every loop is a structural recursion over a list, a text or a number, so no fuel is needed.
--
-- Not modelled: locks, sockets and MQTT, which are input and output; `main` and `pe7_main` round
-- their parts above, which read settings and sensors and write files; `build_history_stats` of the
-- review, which counts by calendar days and averages by Python's rounding; the legacy service of
-- pi4/lib/hioc/assets.py beyond what the policy service takes from it; and the rest of the library
-- (inventory.py, enrichment.py, classification.py and the association modules), of the commands
-- under pi4/bin, the Home Assistant integration and the delivery scripts under tools, which gather,
-- label and deliver data and take no part in the decisions above.
pub mod Base
pub mod Contract
pub mod Availability
pub mod Incidents
pub mod Protocol
pub mod Policy
pub mod Observation
pub mod Correlation
pub mod Cycle
pub mod Review
pub mod Examples
