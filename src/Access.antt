-- ===== src/Access.antt =====
-- src/auth/jwt-roles.guard.ts: which requests the guard lets through. The answer of the auth service
-- to a token is a parameter.
pub mod Marathon
pub mod Policy
pub mod Grants
