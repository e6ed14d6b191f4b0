-- ===== src/Lib.antt =====
-- Verification of django-rls-tenants: tenant isolation by PostgreSQL row-level security in Django.
--
-- The program keeps two custom PostgreSQL variables (GUCs), the admin flag and the current tenant, in
-- step with the active RLS context of the running code. The policies of the tables read them; they
-- are written by constraints on the models and by migration operations. A context is entered in
-- Python (context variables), and the GUC affinity guard, an execute wrapper on every connection,
-- brings the session to the context's values before each statement runs. For that it keeps a tracker
-- per connection: what it believes the session holds. The two halves meet in the values: a session
-- that holds a tenant's values passes, by the policies' expressions, that tenant's rows.
--
-- Files:
--   Base/Core, Base/Text,  shared names; texts as lists of character codes; results of calls that may
--   Base/Outcome           raise.
--   Gucs                   the values of a context and beliefs about a session
--                          (django_rls_tenants/tenants/state.py, affinity.py).
--   State/Var              a context variable of Python's contextvars, with its tokens.
--   State/Holder           the holders of a context's values (tenants/state.py); Ended: a holder that
--                          has ended; Nested: what the end of a block does to other holders.
--   State/Block            `_rls_state` (tenants/context.py); Restores: its exit.
--   Affinity/Server        what PostgreSQL does with the GUCs of a session: begin, commit, rollback,
--                          set_config, savepoints, as named hypotheses.
--   Affinity/Tracker       `_SessionGUCs` and the following of transaction ends and savepoints
--                          (tenants/affinity.py); Sound, Keeps, Savepoints, Session: a session
--                          beside its tracker, step by step.
--   Affinity/Sql           the statement parser of the guard; Comments: leading comments;
--                          Leading, Rounds.
--   Affinity/Connection    a Django connection over a driver that is a parameter.
--   Affinity/Writes        `_observe`, `_record`, `writing`, `write_gucs`, `_apply_if_stale`; Sound,
--                          Followed: what a write leaves.
--   Affinity/Guard         `_guard`; Isolation: what a statement runs on; OwnTransaction, Committed:
--                          the transaction of its own under USE_LOCAL_SET.
--   Affinity/Ends          the hooked commit and rollback, apply_active_context,
--                          settle_other_aliases and suspect_sessions; Followed, Others.
--   Affinity/Example       a concrete server and driver, on which the hypotheses hold.
--   Rls/Guc                django_rls_tenants/rls/guc.py over a database that is a parameter.
--   Rls/Context            rls_context, bypass_flag, restore_gucs and _enter_gucs of rls/context.py;
--                          Laws: what the parameter does; Restores: the exit of a context.
--   Selection              tenants/selection.py: the tenant of a request, and its switch; Allowed:
--                          whom a request may select; Stored: the selection of a session.
--   Policy/Names           the validation of names; Fragment, Create: the texts of the policies
--                          (rls/policy_sql.py, rls/constraints.py); Cut: names cut to 63 bytes.
--   Policy/Expr            the expressions of the policies as trees, and the laws of PostgreSQL;
--                          Trees: which trees the texts are; Meaning, Isolation: what they let through.
--   Policy/Safe            tenants/sql.py; Written: its texts; Agrees: beside the policy.
--   Policy/Model           Django's answers about models; Predicates: rls/predicates.py.
--   Policy/Constraint, M2m the two constraints of rls/constraints.py; RoundTrip, Equal, Meaning.
--   Policy/Operation,      the operations of operations.py; Agrees: beside the constraint.
--   Policy/M2mOperation
--   Policy/Dollar          the dollar quotes of the DO blocks.
--   Policy/Example         a PostgreSQL on which the laws hold.
--   Pool                   pool.py; Cleared: what a connection shows after its reset.
--   Conf                   tenants/conf.py; Cached: reads between reloads; Allowlist.
--   Rls/Bypass             tenants/bypass.py.
--   Context                the values of a user's context (tenants/context.py); Values;
--                          Request, Scoped: what process_request of tenants/middleware.py decides;
--                          Databases, Undone: its _set_gucs_on_all_databases over a thread's connections
--   Audit                  tenants/audit.py; Lines: a record is one line.
--
-- The model. State is passed explicitly. A `World` is one connection with its session, its tracker
-- and the depth of the library's writes of its thread; an operation takes a `World` and gives a
-- result or an exception with the `World` after it. `Context`s and holders are numbers. The tracker's
-- `read_status` is the driver's status of the session, passed to the operations that read it.
-- Savepoints are kept newest first, where the source appends them to a list.
--
-- Bounds and fuel. `skip_leading_comments` takes `suc (length sql)` rounds: a round that goes on
-- shortens the text.
--
-- The policies' SQL is modelled as text, character by character, and beside it stand expression
-- trees, whose printed form the text is and which PostgreSQL evaluates on a row. An operation of the
-- schema editor is the text that it is given to execute. A value of the settings, a field of Django's
-- models and a predicate are told apart as far as the code does.
--
-- Parameters. PostgreSQL, the driver and Django's connection are `Server` and `DriverLaws`, whose
-- fields are the documented behaviour the code relies on; `connect` is Django's opening of a
-- connection with its handlers. PostgreSQL's evaluation of the policies' expressions is `Postgres`
-- with `PostgresLaws`, a pooled connection `PoolDriver` with `PoolLaws`; in each of these the laws
-- are hypotheses of the theorems, and an example satisfies them. Upper and lower case and white space
-- are those of ASCII (and the two further white spaces of Latin-1). Closing a connection drops its
-- session.
--
-- Not modelled: the loggers, the message texts of exceptions, the rendering of composed statements
-- (the result is a constructor of `Sql`), the asynchronous forms of the contexts, and the parts of the
-- program that no file above names: they are the tenant contexts, what the middleware does over these
-- parts, the scoping of querysets, and glue to Django's checks, admin and commands.
pub mod Base
pub mod Gucs
pub mod State
pub mod Affinity
pub mod Rls
pub mod Selection
pub mod Policy
pub mod Pool
pub mod Conf
pub mod Context
pub mod Audit
