-- ===== src/Lib.antt =====
-- Atlas: the lexical scanner, the survival of effects in their transactions, the local evidence
-- store, the safety of live runs, decision evaluation, authority snapshots, the
-- procedure graph store and type resolution.
--
-- The program extracts technical behaviour from database routines. This library models eight of its
-- parts, all under src/ojas_reconciler/db2_behavior.
--
-- Parsing: `Db2LexicalScanner.scan` of parsing/lexer.py in `Lexer`. A text is the list of its code
-- points, `text[i:]` is carried with the index, and each branch of the loop is a function. What
-- `str` knows about characters is a parameter (`Chars`). `Tiles` says what the tokens of a text are,
-- without the scanner. The outer loop has the length of the text as its fuel: a round consumes a
-- character.
--
-- Analysis: the records of parsing/models.py and analysis/models.py that the analyses read, in
-- `Records`. `Boundaries` is the search of `TransactionSurvivalAnalyzer._first_boundaries`
-- (analysis/transaction.py) through the control flow graph, an instance of the worklist search of
-- `Prelude.Explore`: its fuel is twice the number of edges and one, since a state that was visited is
-- not left again. `Survival` has `_classify` and `_observability`, `Transaction` has `analyze` and
-- `_finding_for_analysis`, and `Modality` is `EffectModalityAnalyzer` (analysis/modalities.py), which
-- reads the classifications: the walk `_loop_ancestors` has one more than the number of nodes as its fuel, and a
-- reference that names no node is an error. `Nullability` is
-- `DefiniteNullabilityAnalyzer` (analysis/nullability.py), whose regular expressions are parameters
-- (`Patterns`). `Paths` says what a path is, `Enclosed` which loops enclose a node, and `Merged` how
-- two statuses are merged; the other files have the theorems about them.
--
-- Governance: the evidence store of governance/adapters/sqlite.py, with the models of
-- governance/models.py. `Rows` has the enumerations and the rows; `Db` is the list of rows of each
-- table, in the order of insertion. `Session` has the actions: a function from the state to a
-- result or an error and the state behind it, where `session` rolls back a session that raised, as
-- `GovernanceStore.session` does. A method may use several sessions, so what an earlier one wrote
-- stays when a later one raises. `Tables` has the SQL statements under the constraints of
-- governance_migrations (primary keys, UNIQUE columns and foreign keys), `Audit` has
-- `_append_event` and the chain check of `history`, and `Admission`, `Baselines`, `Comparisons` and
-- `Bindings` have the other methods: `_admit_model`, `get_artifact`, `register_baseline`,
-- `compare_to_baseline`, `amend_scenario_spec`, `bind_platform_decision` and `bind_certification`.
-- `Batches` has `admit_scenario_batch`, `admit_bdd_batch` and `admit_runtime_batch`, each a loop of
-- admissions; of scenarios with one timestamp the one inserted first is taken as the newest.
-- `Trace` has sequences of calls. A pydantic model is its dump, its digest field and its Gherkin
-- text. The authority scope has one value and is left out.
--
-- Runtime: `RuntimeSafetyAssessor.assess` (runtime/safety.py) in `Safety`, and the checks that
-- `IbmDbSandboxExecutor.execute_db2` (runtime/executor.py) makes before it connects in `Executor`:
-- it reads the assessment, so the theorems of `Contained` are about the two together. `Verify` is
-- `RuntimeVerifier.verify` (runtime/verify.py), which compares an execution record with a plan; a
-- finding is its code and its evidence, and the digests of the result are left out. `Planning` is
-- `RuntimeVerificationPlanner.plan_all` (runtime/plan.py), which reads the assessment, and `Reconcile`
-- is `RuntimeReconciliationService.reconcile` (runtime/reconcile.py) with `verify_batch`.
--
-- Decision: the model of decision/models.py and `ModelDrivenDecisionEvaluator.evaluate`
-- (decision/evaluator.py). Priorities are natural numbers, as the builder gives them from 1. The
-- loop is a recursion on the sorted rules. Its evaluated rules hold one entry for each predicate.
--
-- Authority: `AuthoritySnapshotValidator` of bdd/authority.py in `Snapshots`, with the snapshots of
-- bdd/models.py. An issue is its code and its artifact. `Sound` says what a snapshot must be,
-- without the issues.
--
-- Graph: the procedure graph store of graph/store.py, its tables in `Rows`, and `ingest` and
-- `neighborhood` in `Store`. In which order SQLite returns rows is a parameter (`Engine`). `Near` says
-- which nodes some edges of a tenant join with a node.
--
-- TypeSystem: the types of type_system/models.py and `TypeResolutionEngine.resolve`
-- (type_system/resolver.py): `tuple.index` over `SOURCE_PRIORITY` gives the sort keys, and raises.
--
-- Values has the values with a canonical JSON form, and `Hashes`, the interface of the code that
-- serialises, hashes and checks timestamps (core/canonical_json.py, bdd/gherkin.py, bdd/models.py,
-- hashlib and json), which the store, the runtime and the decisions take as a parameter. What the store's theorems need of
-- it is `AreLawful`: a value that was written and read again has its digest, and a canonical
-- timestamp is its own canonical form. Python's `str.upper` and `str.strip` are a parameter too
-- (`Texts`). Prelude has the shared helpers. The loops of the other
-- parts are structural.
--
-- Not modelled: the migrations and the collections of `history`; the
-- scripted executor and the calls of the database driver; the exporter of authority requirements; the
-- searches by label and the list of the graph store; the builder of the decision model; the
-- parser of declared types; the parsers, the construction of the control flow graph and the other
-- analyses, the compilers, the catalogs, the dialect adapters, and the interfaces.
pub mod Prelude
pub mod Values
pub mod Governance
pub mod Parsing
pub mod Analysis
pub mod Runtime
pub mod Decision
pub mod Authority
pub mod Graph
pub mod TypeSystem
