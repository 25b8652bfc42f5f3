-- ===== src/Lib.antt =====
-- DocFlow reads inbound purchase orders, matches their lines against a distributor's catalog and
-- hands them to people for review. This library models the deterministic core of its Python code,
-- under packages/core/docflow_core.
--
-- Parts and files.
-- Status (document_status.py): the status table `ALLOWED`, the row of the documents table, the
--   compare-and-set `transition` and `transition_many`, the worker's claim, the attempts recorded
--   and the waits. A statement is a function from the table before to the table after; a database
--   session shows the rows of one tenant. `Changes` is any sequence of calls.
-- Retry (retry_rules.py): `decide` and `failure_detail`.
-- Dispatch (dispatch.py): `choose`, which gives the free slots to tenants in turn, in Choose; Pass
--   the queues that are read and one pass, whose calls of the database answer as a PassCalls says.
-- Matching (matching.py): Keys are the comparison keys of texts, with the regular expressions as
--   walks; Measures the numbers with units; Catalog the items and their two indexes; Candidates
--   the scores, the full scan and the fast scan; Resolve the decision on a line; Rules the learned
--   rules that are loaded; Pass the pass over a document's lines; Confirm a reviewer's answer. A
--   text is the list of its code points, a score a number of ten-thousandths. The scorers of the
--   library rapidfuzz and Python's case tables are parameters (the records Fuzz and CaseTable).
-- Validation (numbers.py, validation.py): Numbers are the document numbers, read and written; Sync
--   the reconciliation of a document's warnings with the stored rows. A Decimal is a sign, a
--   coefficient and a number of places; Money is the exact arithmetic on them and the rules on
--   money and quantities; Python's table of decimal digits and the fingerprint (a hash) are
--   parameters. Fields are the rules on dates, currencies and blanks and the severity of a
--   difference, Document the findings on a document and its header, Evaluate is `evaluate_document`;
--   Python's dates and texts of decimals, and the severities of the error catalog, are a Checks. A
--   header field is a text or an amount, and an entry of a detail that is None is left out. Load is `load_snapshot`, on rows whose JSON columns
--   are read already. Required follows one finding among them all.
-- Sweep (stuck_documents.py): the sweep of one tenant (Tables, Visit and Run), on the operations
--   of Status and the rules of Retry. Rows, Loop and Settles are its loop, row by row; the alerts,
--   the cost rows and the queue are a list of effects.
-- Lifecycle (lifecycle.py): one tenant from cancellation to suspension, the retry of the billing
--   cancel, and reactivation: Row, Cancel, Suspend and Return; Sound and Steps are the states in
--   between. Events, mail and calls of the payment provider are a list of effects, the provider's
--   answers are given.
-- Export (exports.py): View is the order as every format sees it and its flat rows; Csv the CSV
--   file, with the writer and the reader of Python's csv module; Build the entry point for a CSV
--   file. A file is the list of its code points.
-- Tiers (tiers.py): the versions of a tier's price, and the change that adds one.
-- Allowance (allowance.py): the notices at 80% and 100% of a plan, once a month each, and the
--   banner.
-- Review (review.py): what a reviewer sends and the changes of a save (Review), the rows and how
--   they are loaded (Rows, Tables), the notes on warnings (Notes), approval, rejection and
--   re-opening (Decide), a save (Edit). A call that fails rolls back and so returns no tables.
--   What Postgres stores of a typed text, the digests, random ids and the evaluation of a document
--   are the fields of a Server. Calls and Moved take each call apart; Steps is any sequence of
--   them; Saves, Saved and Reopened follow the fields of a header, Acknowledged and Noted the
--   warnings.
-- Prelude is: library names passed on, Boolean tests on numbers, lists, the stable sort.
--
-- How they interact: the worker claims a document (Status), records how its try ended (Status) and
-- asks `decide` (Retry) whether there is another; the dispatcher (Dispatch) picks who waits no
-- longer. Between the claim and the move to review, the worker runs the pass (Matching). The sweep
-- (Sweep) takes up what a dead worker left: it asks `decide`, and calls `transition` (Status). A
-- reviewer's call checks the document again (Validation), moves it by `transition` (Status) and
-- freezes a snapshot (Review); an approved order is exported (Export).
--
-- Times are whole seconds (microseconds in Dispatch), ids are numbers. Loops are recursions on
-- lists or on the number of slots. The fast scan alone runs on fuel, one more than there are
-- items: it keeps four times as many in each round, and ends when it keeps as many as there are.
--
-- Not modelled: the .xlsx, JSON and QuickBooks files of exports.py; the HTTP routers, the email,
-- storage, billing and notification services, the model provider and the parser, which are calls
-- of other systems; the web client. Reads by SQL are modelled as filters and sorts of lists of
-- rows. The tables of a review take the warnings that a check finds as given. The detail that a
-- review error lists, and the time at which a review was started, are left out.
pub mod Prelude
pub mod Status
pub mod Retry
pub mod Dispatch
pub mod Matching
pub mod Validation
pub mod Allowance
pub mod Export
pub mod Sweep
pub mod Lifecycle
pub mod Tiers
pub mod Review
