-- ===== src/Quota.antt =====
-- core/quota.py: the two question quotas, on the tables that they keep.
pub mod Anon
pub mod User
