-- ===== src/Lib.antt =====
-- Verification library of the competitor scout backend, apps/backend/src/competitor_scout.
-- The program watches competitors of its users: a user signs in with Google, adds competitors
-- and their sources, and approves sources; a queue of jobs runs scouts, whose agents plan the
-- research, return evidence that is checked against the approved sources, and write findings.
--
-- How the parts interact: the routes of api/ find the session of a cookie (services/auth.py)
-- and run one transaction of services/ on the tables of models/; work that takes longer goes
-- through the table of jobs (jobs/repository.py), from which workers claim it under a lease;
-- the agents check what they found with agents/validation.py, which uses the URL checks of
-- security/urls.py, as do the sources of a competitor.
--
-- The files, each with the paths below apps/backend/src/competitor_scout:
-- - Prelude: tests on native numbers, results of calls that may raise, tables with a key
--   (find, update, ORDER BY with LIMIT 1, counting), orders, and Python text operations on
--   lists of code points.
-- - Json: JSON values and the parser that the queue uses, a parameter.
-- - Jobs: jobs/repository.py and models/jobs.py. `enqueue_in_session`, `claim`, `renew`,
--   `complete` and `fail` have the names of the source, without the class. Children: Leases,
--   Claims, Enqueue (what each call does), History (sequences of calls), Safety, Keys,
--   Idempotence, Machine and Refinement (the machine of one job), and Executor
--   (`JobExecutor.run_once` of jobs/executor.py).
-- - Urls: security/urls.py. `validate_public_https_url`, `same_registrable_domain` and their
--   helpers, without the leading underscores. Children: Safety, Scope.
-- - Competitors: services/competitors.py, the routes of api/competitors.py that change state,
--   and two tables of models/intelligence.py. Children: Domains (`normalize_primary_domain`),
--   Sources (the calls on sources), Routes (the routes and sequences of them), Invariant,
--   Selection, Activation, Serving, Requests (the invariant of both tables), Capacity,
--   Limits, Quota (the limit on competitors).
-- - Evidence: agents/validation.py. Children: Acceptance, Completeness.
-- - Auth: services/auth.py, security/csrf.py, models/auth.py, and the transactions of
--   api/auth.py. Children: Accounts (`upsert_google_user`), OAuth (the OAuth state),
--   Resolving, History (sequences of requests), Keeping, Sessions, Registration.
-- - Runs: the table of runs of models/intelligence.py, and of services/runs.py the request of
--   a manual run (Manual; Repeats, OneActive), the output of a task that a reader sees
--   (Output; OutputSafety), the usage by model (ModelUsage; ModelTotals), and the reads of
--   runs (Reading; Listing).
-- - Orchestrator: `ScoutOrchestrator` of agents/orchestrator.py, with agents/costs.py and
--   agents/contracts.py. Usage (`_UsageAccumulator`, the cost ceilings), Plans
--   (`validate_scout_plan`), Store (the transactions on tasks, runs and usage events),
--   Planning (the loop of plans and repairs), Children, ChildLoop and Attempts (a child's
--   rounds, with Firecrawl as the fallback), Waves and Gathering (the waves of children),
--   SourceDomains (`public_source_domain` of services/findings.py) and Persisting (evidence),
--   Synthesis, Starting (`_start_run`, `_terminalize_interrupted_run`) and Execution
--   (`execute_daily_run`). The other files prove: Invariant and Budget (the reservations of
--   costs), Rounds and Turns (a child's loop), Interleavings and WaveEnds (concurrent
--   children), PhaseEnds, SynthesisEnds, Interrupted, StartEnds, Outcome and RunEnds (the end
--   of a run), Totals (usage), PlanLimits, Coverage (`_snapshot_coverage`).
-- - Paging: the cursor pages of services/competitors.py, and of the tasks of a run in
--   services/runs.py. Children: Order, Complete, Listings, Shown, Tasks.
-- Each Tests module runs the definitions on small inputs and applies the theorems to them.
--
-- How the code is modelled. A call is a function on the tables that returns the new tables,
-- or the exception; a call that raises leaves the tables as they were, as its transaction is
-- rolled back. A sequence of calls is one transaction after another. The queue, the limits on
-- accounts and on new competitors and the request of a manual run take row locks or advisory
-- locks, or update a row in one statement, so that their transactions have such an order. The
-- updates of a competitor and of its sources take none: what is proved of them is about
-- requests that are served one after another, and two that overlap are not modelled.
-- Identifiers are natural numbers, instants are microseconds of UTC; a Python `datetime` is
-- naive or aware where the code looks at that. Fresh keys, random texts and clocks are
-- arguments. Numbers of the code are unbounded, as in Python. Loops are recursion on the list
-- that they walk through. Fuel is a bound where there is no such list: the reader of pages
-- gets a bound on the number of pages, the loop of plans its number of repairs and one, as in
-- the code, and the waves as many rounds as there are tasks, of which each wave takes one at
-- least.
--
-- The orchestrator works in steps between two awaits, and each of its transactions commits by
-- itself; the tables that a crash leaves behind are not part of the model. What the model,
-- the tools, the publishers and the database give a step is an argument: replies with their
-- usage or exceptions, sizes of messages, identifiers and clocks. The children of a wave run
-- concurrently; their order is a sequence of turns, each of which names the child whose next
-- attempt runs, and a deadline may end any of them before its loop does, in a round or
-- between two. The tables are those of the user and the run.
--
-- Parameters: the URL, address and public-suffix parsers, the IDNA codec, the resolver, the
-- JSON and base64 codecs, `int`, digests and HMACs, UUIDs, Unicode categories and the
-- validator of source URLs that the application is given. A theorem about them states what it
-- needs of them as a hypothesis.
--
-- Not modelled: the column `updated_at`; widths of columns; the order of unique checks within
-- one UPDATE of several rows; `SourceDiscoveryService` and the texts of prompts of
-- agents/orchestrator.py, and the client of the agents; the publication of findings and
-- snapshots, briefs, the redaction of the objective and the scope of a task, the scheduler,
-- the job handlers, and of the worker its loop, its cancellation and the timing of its
-- renewals; the HTTP layer beyond the routes named above; configuration, logging and the web
-- client.
pub mod Prelude
pub mod Json
pub mod Jobs
pub mod Urls
pub mod Competitors
pub mod Evidence
pub mod Auth
pub mod Paging
pub mod Runs
pub mod Orchestrator
