-- ===== src/Models.antt =====
-- app/models: the rows of the tables, one record for each class that a service reads or writes.
-- A UUID is a number. Free text that no code reads back (notes, descriptions, addresses, the
-- message of a notification) is left out, and so are the TimestampMixin columns: a table is a list
-- in the order of creation.
mod Wallets
mod Entries
mod Clients
mod Collaborations
mod Exchanges
mod Operations
mod Platform
mod Accounts
pub use Wallets.*
pub use Entries.*
pub use Clients.*
pub use Collaborations.*
pub use Exchanges.*
pub use Operations.*
pub use Platform.*
pub use Accounts.*
