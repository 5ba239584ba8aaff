-- ===== src/Store.antt =====
-- backend/internal/store: the tables of the SQLite schema (store/migrations.go, store/models.go) as
-- lists of rows in one record, the errors of store/node_connection.go, transactions, and the audit
-- row that ends them (store/audit.go). The store has one connection (store/store.go, Open), so a
-- statement or a transaction is one step. A column of times holds nanoseconds; the database keeps
-- them as RFC 3339 texts, and how SQLite compares those is a parameter, TextOrder.
mod Schema
unfoldable pub use Schema.*
pub mod Access
pub mod Users
pub mod Mfa
pub mod Policies
pub mod PortForwards
pub mod Discovery
pub mod Devices
pub mod Projects
