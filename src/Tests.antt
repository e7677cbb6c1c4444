-- ===== src/Tests.antt =====
-- The models run on sample rules, rows and requests.
mod Rules
mod Concurrent
mod Stores
mod Access
mod Historical
mod Reads
mod Mysql
mod Past
