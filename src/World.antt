-- ===== src/World.antt =====
-- The outside of the explorer: the database, the Stellar network, the clock and the verification of
-- signatures. Each answer is a parameter, a function of what has happened so far. The calls of the
-- wallet are among them, as the handlers and the escrow meet it behind an interface; pkg/stellar,
-- which answers them, is modelled in Stellar. A program's state is the list of the writes that it
-- has issued, the newest first, and the number of the questions it has asked: two questions may get
-- different answers, since other clients write to the same database.
mod Defs
mod Program
pub use Defs.*
unfoldable pub use Program.*
