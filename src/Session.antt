-- ===== src/Session.antt =====
-- Programs over the public methods of `Transaction`: a session begins a transaction, appends its
-- operations, and commits it, aborts it or drops it; the sessions run one after the other.
pub mod Open
pub mod Marker
pub mod Consistent
pub mod Replay
pub mod Start
pub mod Refused
pub mod Closing
pub mod Interleaved
pub mod Checkpointed
pub mod Settled
pub mod Tests
use async_wal_db.Prelude.{ℕ, List, [], ◌∷◌, suc}
use async_wal_db.Entry.{WalEntry}
use async_wal_db.Frame.{Codec}
use async_wal_db.Database.{Database, Action, pure, ◌>>=◌, ◌>>◌}
use async_wal_db.Transaction.{Transaction, World, begin_transaction, append_op, commit, abort}

pub data Ending : Type 0 where
  commits aborts drops : Ending

pub record Session : Type 0 where
  pub ops : List (World × WalEntry)
  pub ending : Ending
  pub last : World  -- during the commit or the abort

unfoldable pub append_ops : Codec → List (World × WalEntry) → Transaction → Action Transaction
append_ops c [] tx = pure tx
append_ops c ((world, op) ∷ ops) tx = append_op c world tx op >>= append_ops c ops

unfoldable pub conclude : Codec → Ending → World → Transaction → Action (Unit {0})
conclude c commits world tx = commit c world tx
conclude c aborts world tx = abort c world tx
conclude c drops world tx = pure tt

unfoldable pub run : Codec → Session → Action (Unit {0})
unfolding append_ops conclude
run c s db =
    let (db', tx) = begin_transaction db in
    (append_ops c s.ops tx >>= conclude c s.ending s.last) db'

unfoldable pub run_all : Codec → List Session → Action (Unit {0})
unfolding run
run_all c [] = pure tt
run_all c (s ∷ ss) = run c s >> run_all c ss
