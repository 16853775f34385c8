-- ===== src/Session/Interleaved.antt =====
-- Any number of transactions that are open at the same time: each step is a call of a method of
-- `Transaction` that returns without an error, on disks that do not fail.
pub mod Open
pub mod Kept
pub mod Endings
pub mod Calls
pub mod Recovered
pub mod Reordered
pub mod Tests
use async_wal_db.Prelude.{ℕ, ◌+◌, ◌^◌, ◌<◌, ◌≡◌, List, [], ◌∷◌, ◌++◌, All}
use async_wal_db.Errors.{ok}
use async_wal_db.Entry.{WalEntry}
use async_wal_db.Frame.{Codec}
use async_wal_db.Database.{Database}
use async_wal_db.Wal.Holds.{CanEncode}
use async_wal_db.Transaction.{Transaction, World, begin_transaction, append_op, stamp}
use async_wal_db.Transaction
use async_wal_db.Session.Open.{IsCalm, CanWrite}

-- `committed` are the numbers of the transactions that have committed, in that order.
pub record Work : Type 0 where
  pub db : Database
  pub running : List Transaction
  pub committed : List ℕ

-- `picks` chooses the transaction whose call is next. Commits come in the order of the numbers.
pub data Turn (c : Codec) (s : Work) : Work → Type 0 where
  begins :
      s.db.next_tx_id + 1 < 2 ^ 64
      → Turn c s (record s {
        db = (begin_transaction s.db).0;
        running = (begin_transaction s.db).1 ∷ s.running;
      })
  picks :
      (front : List Transaction) (tx : Transaction) (back : List Transaction)
      → s.running ≡ front ++ tx ∷ back
      → Turn c s (record s { running = tx ∷ front ++ back })
  appends :
      (tx tx' : Transaction) (others : List Transaction) (world : World) (op : WalEntry)
      → s.running ≡ tx ∷ others
      → IsCalm world
      → CanWrite c (stamp tx.id world.timestamp op)
      → (append_op c world tx op s.db).1 ≡ ok tx'
      → Turn c s (record s { db = (append_op c world tx op s.db).0; running = tx' ∷ others })
  commits :
      (tx : Transaction) (others : List Transaction) (world : World)
      → s.running ≡ tx ∷ others
      → IsCalm world
      → CanEncode c (WalEntry.commit tx.id world.timestamp)
      → All (λ j. j < tx.id) s.committed
      → (Transaction.commit c world tx s.db).1 ≡ ok tt
      → Turn c s (record {
        db = (Transaction.commit c world tx s.db).0;
        running = others;
        committed = s.committed ++ tx.id ∷ [];
      })
  aborts :
      (tx : Transaction) (others : List Transaction) (world : World)
      → s.running ≡ tx ∷ others
      → IsCalm world
      → CanEncode c (WalEntry.abort tx.id world.timestamp)
      → (Transaction.abort c world tx s.db).1 ≡ ok tt
      → Turn c s (record s { db = (Transaction.abort c world tx s.db).0; running = others })
  drops :
      (tx : Transaction) (others : List Transaction)
      → s.running ≡ tx ∷ others
      → Turn c s (record s { running = others })

pub data Turns (c : Codec) (s : Work) : Work → Type 0 where
  here : Turns c s s
  then : {t u : Work} → Turns c s t → Turn c t u → Turns c s u
