-- ===== src/Lib.antt =====
-- Foresee: a language for decisions that propose changes, try them on a snapshot, and commit one of
-- them to a live target.
--
-- The program. A source text is read by a lexer and a parser (foresee/lexer.py, foresee/parser.py)
-- into the syntax tree of foresee/model.py; the checker of foresee/compiler.py, with the tables of
-- foresee/signatures.py, accepts it or reports diagnostics; the runtime (foresee/runtime.py)
-- evaluates the accepted decision: it reads a snapshot of the target, asks a model for plans,
-- simulates each on the snapshot, selects a least score and commits it. The target is the SQLite
-- catalog of foresee/catalog.py, whose commit is one transaction with a receipt; the journal of
-- foresee/journal.py records what is intended before the commit, and the reconciliation reads the
-- receipts after a crash.
--
-- The files.
--   Base          Boolean tests, the results of code that may raise, integers.
--   Json          the values of Python's json, numbers being integers only.
--   Catalog       foresee/catalog.py. Snapshot: Snapshot and the methods on snapshots.
--                 Plan: Catalog._validate_plan. Target: the tables, a connection with its open
--                 transaction, and the statements. Request: commit_identity and the guards of
--                 Catalog.commit. Commit: Catalog.commit with its fault hooks, one function for each
--                 block of it. Prices: what the UPDATE statements do, against the simulation.
--   Lexer         foresee/lexer.py, over the list of the characters of a source; a step for each round of
--                 its loop. Spans: that it ends, and where its tokens stand.
--   Model         foresee/model.py: the syntax tree, a constructor for each kind of expression and
--                 statement, and bindings.
--   Compiler      foresee/signatures.py and foresee/compiler.py. State: the state of Checker and the
--                 monad of its methods. Parts: its steps that look at no subexpression. Checker:
--                 infer_expr, arguments and check_statement. Program: check and compile_program.
--                 Allowed: what an accepted body is, without the checker. Accepts: the proofs.
--   Parser        foresee/parser.py, a function for each method, over the tokens of the lexer. Ends and
--                 Fuel: that it ends.
--   Runtime       foresee/runtime.py. Select: the selection of a trial. State: the values, the state of
--                 Runtime and the monad of its methods. Steps: the parts of exec_statement and
--                 eval_expr that evaluate no subexpression. Eval: both, over the four operations that
--                 OfflineRuntime overrides. Live: these operations on the target, the provider
--                 and the journal. Written: the JSON of what is kept. Decision: run and its report.
--                 Offline: OfflineRuntime of foresee/replay.py. Logic: relations that the evaluation
--                 keeps, with the rules they need; Branch, Commits and
--                 Reproduced use it.
--   Proposal      foresee/model_provider.py and foresee/openai_provider.py. Bounded: the provider with its
--                 budget and its lock. Strict and Response: what it accepts of an answer. OpenAi:
--                 the transport with its ledger. Limits, Accepted and Spending: the proofs.
--   Evidence      foresee/evidence_format.py, evidence_auth.py, evidence_workflow.py and
--                 bounded_replay.py. The JSON documents and the
--                 scan of their nesting. Format: statements, envelopes and the bytes that are
--                 signed. Trust: policies and the authentication of an envelope. Workflow: the
--                 replay in a worker, sign_report and verify_report. Authentic, Envelope, Signed,
--                 Prepared and Verified: the proofs.
--   Journal       foresee/journal.py: the tables, the methods and the reconciliation. Stored: a target as
--                 the reconciliation reads it.
--
-- The state. A method of the catalog is an action from a connection to a result beside the
-- connection, also when it raises: the connection has the durable database and, in a transaction,
-- the pending one. A fault hook raises at a stage or does nothing. The checker's environment,
-- effects and diagnostics are one record that its methods thread; an action of the runtime returns
-- the state beside its result, also when it raises, and the operations that the offline runtime
-- overrides act on the events and the outside world alone; a token of an exploration or a
-- selection is a number. A binding carries the identity of its Python object, by which an alias of
-- a spent selection is found. The journal's methods are functions of its tables.
--
-- Bounds and fuel. The parser runs on fuel, three times the number of its tokens and four, which
-- is enough because no more than two of its calls nest without a token between them. The lexer
-- runs on fuel, the number of the characters, and each of its steps reads one. Every other
-- recursion is structural, on a tree or on a list.
--
-- Parameters. The digest of a value (SHA-256 of its canonical JSON) is a function that every
-- theorem takes; none assumes that it tells values apart. What is found at the path of a target is
-- a function from paths. A transport of proposals is any function of its own state, and the
-- encoder, the decoder and the sizes in bytes of its texts are functions. JSON, UTF-8, base64,
-- SHA-256, signatures and regular expressions are functions of a codec for the evidence, whose
-- bytes are numbers. The process that replays a report is any function of its bytes. The text of a
-- number and of an exception, the size of the evidence and the model provider are arguments of a
-- run. The classes of characters are functions of the lexer. Fresh UUIDs are arguments, and so is
-- `int`, which gives none where Python raises.
--
-- What is not modelled. Row ids are texts, and a database that others have altered is read only as
-- far as the column checks allow, except by the reconciliation, which reads its receipts as they are
-- stored; the revision of a target is unbounded, where SQLite refuses one of 2 ^ 63. An error keeps its class and the fixed part of its message, and
-- a diagnostic its code and its span. The runtime evaluates the syntax tree, where the source
-- reads the JSON that the tree is lowered to, and keeps what a branch counts apart from its names,
-- which the checker refuses when they begin with two underscores as the counters do. The lowering
-- of an accepted program to JSON, the journal's start and completion around a run, the worker of
-- the OpenAI transport, and the files of the signed evidence are not modelled, and a provider is
-- used by one thread. Files, processes, networks and the command line are left out, and so is the
-- front end in Rust.
pub mod Base
pub mod Json
pub mod Catalog
pub mod Model
pub mod Parser
pub mod Compiler
pub mod Runtime
pub mod Proposal
pub mod Journal
pub mod Evidence
pub mod Lexer
