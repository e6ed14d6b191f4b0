-- ===== src/Affinity.antt =====
-- The GUC affinity guard (django_rls_tenants/tenants/affinity.py), part by part.
pub mod Connection
pub mod Sql
pub mod Example
pub mod Tracker
pub mod Writes
pub mod Guard
pub mod Ends
pub mod Server
