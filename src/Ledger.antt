-- ===== src/Ledger.antt =====
-- The ledger of src/nyanya_agent/execution_store.py and operation_schema.py: statuses, rows,
-- and the state that every operation reads and writes.
mod Status
mod Rows
mod Events
unfoldable pub use Status.*
pub use Rows.*
pub use Events.*
