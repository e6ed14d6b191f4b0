-- ===== src/Policy.antt =====
-- Row-level security policies: their SQL (django_rls_tenants/rls/policy_sql.py, constraints.py and
-- predicates.py, tenants/sql.py, operations.py) and what it lets through.
pub mod Names
pub mod Fragment
pub mod Create
pub mod Expr
pub mod Trees
pub mod Meaning
pub mod Isolation
pub mod Safe
pub mod Model
pub mod Predicates
pub mod Dollar
pub mod Constraint
pub mod M2m
pub mod Operation
pub mod M2mOperation
pub mod Example
pub mod Tests
