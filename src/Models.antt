-- ===== src/Models.antt =====
-- The rows of the database (services/api/internal/models). UUIDs are numbers, 0 for `uuid.Nil`;
-- so are names that the program only compares (channel ids, wallet addresses, hashes, logins), 0
-- for the empty one. int64 columns are `ℤ`, times are nanoseconds since the epoch, and a pointer
-- that may be nil is an `Option`.
mod Status
mod Points
mod Watch
mod Claims
mod Accounts
mod Raffles
mod Sessions
pub use Status.*
pub use Points.*
pub use Watch.*
pub use Claims.*
pub use Accounts.*
pub use Raffles.*
pub use Sessions.*
