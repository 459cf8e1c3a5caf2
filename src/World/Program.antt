-- ===== src/World/Program.antt =====
-- The programs of the handlers and of the escrow.
use tfexplorer.Program.{Program, Store}
use tfexplorer.World.Defs.{Write, Env}
pub use tfexplorer.Program.{
  Outcome, done, failed, pure, fail, resume, ◌>>=◌, ◌>>◌, asked, or_fail, guard, ask, ask_total,
  write, write_anyway, when, >>=-done, >>=-changed, guard-world, guard-done, or_fail-world,
  or_fail-done,
}

-- A program over the environment, with errors in `E`.
abbrev pub Exec : Type 0 → Type 0 → Type 0
Exec E A = Program Env Write E A

instance abbrev pub env_store : Store Env Write
env_store = record { write_ok = λ env w c. env.write_ok w c }
