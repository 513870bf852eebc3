-- ===== src/Host.antt =====
-- What the program runs on: the state that its calls change, the world outside that answers them,
-- and the calls of the operating system, of the network and of the cluster's API.
mod Types
mod Monad
mod Files
mod Network
pub mod Keeps
pub mod Frame
pub mod Inversion
pub mod Written
pub mod Ensures
pub mod Leaves
pub mod Total
pub mod Calm
pub use Types.*
unfoldable pub use Monad.*
unfoldable pub use Files.*
unfoldable pub use Network.*
