-- ===== src/Redis.antt =====
-- The Redis server, as backend/app/services uses it: an interface, since the server is not part of
-- the repository. Keys are structured (`limits:{identity}:{date}` is `limits identity date`): the
-- program's key prefixes never collide.
mod Keys
mod Values
mod Core
mod Hashes
pub mod Fake
pub mod FakeHashes
pub use Keys.*
pub use Values.*
pub use Core.*
pub use Hashes.*
