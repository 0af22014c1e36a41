-- ===== src/Lib.antt =====
-- Verification of the deterministic core of agent_nettools, the engine of the repository that watches a
-- network: alarms become events with a lifecycle, a descent down a ladder of checks finds the cause,
-- and what is found is relayed, silenced, or handed to an approved procedure.
--
-- The parts, and how they meet:
-- * The event store (src/agent_nettools/event_store.py) keeps events, attempts, notifications,
--   incidents and approvals in SQLite. Workers take leases on events, run them, and record retries.
--   Each method is one `BEGIN IMMEDIATE` transaction, so a method is a function from tables to an
--   error, which rolls back, or an answer with new tables; what several workers do is a list of
--   operations (`run`, `incident_run`, `approval_run`). Store/Rows has the tables, Store/Events the
--   transitions, retries and leases, Store/Create the insertion and refresh of events,
--   Store/Outbox the notifications, Store/Incidents the cases (with incident_case.py), Store/Approvals
--   the approvals; Store/Payload is event_identity.py. Store/Run has the histories, Store/Trail the
--   audit trail of attempts. Store/Compaction deletes what is old, over these tables and those of cards,
--   callbacks, shadows and sweeps; Store/Compaction/History puts it among the operations on events.
-- * The descent (src/agent_nettools/descent.py) walks the rungs of a flow (flows.py) over the
--   evidence of the devices; a check's answer is a CheckResult (checks.py). Checks, Flows, Evidence,
--   Interfaces (interface_kind.py) and Coherence (the verdict of epoch.py on re-reads) are what it
--   stands on; Descent has subjects and aggregation, Descent/Walk the walk,
--   Descent/Finding the finding.
-- * The health rules (src/agent_nettools/checks.py) and the verdicts of a device and of the fabric are in
--   Health/Rules, with the devices of inventory_model.py; Health/Rules/Conditions has what the rules mean.
-- * Silences (src/agent_nettools/health.py, severities of checks.py) are in Health, the roll-up over
--   devices in Health/Fabric, and the validation of a silence file in Health/Parse, where Python's
--   `fromisoformat` is an argument.
-- * The admission of event runs (src/agent_nettools/admission.py) is in Admission,
--   the sliding windows of the probe budgets in Admission/Window.
-- * The log window of a device (src/agent_nettools/log_window.py) is in Logs, with its texts and timestamps
--   in Logs/Text and Logs/Clock; the episodes of log_episodes.py are in Logs/Episodes.
-- * The derived graph (src/agent_nettools/graph.py, graph_snapshot.py) is in Topology. The search that
--   impact.py and `path_between` share is in Topology/Search, by an explorer that says what they do
--   differently; Topology/Impact and Topology/Paths are the two. Topology/Build has the graph's building
--   from the evidence of the devices, with the names of topology.py; `casefold` and the parsed records
--   are arguments.
-- * The relay of a finding (src/agent_nettools/relay_policy.py) is in Relay, after a silence of Health and
--   with its state file in Relay/Suppression and the owners of ownership.py in Relay/Ownership.
-- * Procedures (src/agent_nettools/procedure_workflow.py, procedure_registry.py) are proposed, approved in
--   the event store and verified once, in Procedures.
-- * Correlation groups diagnoses (src/agent_nettools/incident_correlation.py) and, in
--   Correlation/Change, classes a change in time (temporal_correlation.py); Cache is evidence_cache.py.
-- * Budget cuts a text of the evidence to a number of characters (src/agent_nettools/evidence_budget.py).
-- Prelude and Result are shared: tests, lists and texts over the native numbers, and the errors.
--
-- How the source is read:
-- * An instant is a number of microseconds in UTC, and a duration one that is not negative; a
--   negative duration is refused by the source where zero is, and is not represented. A datetime
--   without a zone is `naive`. Clocks and generated ids are arguments.
-- * An error is its kind, one constructor for each `raise`; its message is left out. Python's
--   ValueError of a record's validation is `none` in the descent.
-- * Texts that SQLite compares are compared by an argument: `text_leb` in Store/Create, and in
--   Store/Compaction `IsoTimes`, which has the texts of the rows and of the cutoffs, with their offsets,
--   and has no text where `timedelta` overflows. A payload is the list of its
--   JSON fields.
-- * Checks of rungs, the collector, the resolver and the coherence check are arguments, as in the
--   source. A check's record is assumed built, so it never raises.
-- * The loops are over lists, or over lengths that shrink, but for the search of the graph and the way
--   back along its path: their fuel is the number of devices and of notes, and the theorems on them
--   show that it is enough.
-- * The characters of a log line that its regular expressions class are those of ASCII. The delivery of a
--   relay, and the digest, signature and nonce of an approval, are arguments.
--
-- Not modelled: listing queries and health snapshots of the store; the narrowing shadow,
-- and Telegram receipts; the collection of evidence over SSH, parsing, the model and provider clients,
-- the command line and rendering, which are input and output; the checks of the rungs, the slot locks,
-- event-run budgets by file and event-id claims of admission, the aggregation of log lines, the budgets
-- of a fabric, and the routing of events, which are further parts of the engine.
pub mod Prelude
pub mod Result
pub mod Store
pub mod Checks
pub mod Evidence
pub mod Interfaces
pub mod Coherence
pub mod Flows
pub mod Descent
pub mod Health
pub mod Admission
pub mod Logs
pub mod Topology
pub mod Relay
pub mod Procedures
pub mod Correlation
pub mod Cache
pub mod Budget
pub mod Tests
