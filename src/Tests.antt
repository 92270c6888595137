-- ===== src/Tests.antt =====
-- Runs on concrete inputs, and the theorems applied at concrete inputs.
mod Fixtures
mod Claims
mod Active
mod Client
mod Memory
mod A2a
mod Server
mod Mail
mod Sqlite
mod Http
mod Postgres
