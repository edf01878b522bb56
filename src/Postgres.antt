-- ===== src/Postgres.antt =====
-- internal/storage/postgres/postgres.go: the writing of the queues into the database.
pub mod Writer
pub mod Conservation
pub mod Order
