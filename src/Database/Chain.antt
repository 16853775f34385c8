-- ===== src/Database/Chain.antt =====
-- The parts of a method that has succeeded, and the form of recovery on an open log.
use async_wal_db.Prelude.{◌≡◌, refl, sym, ap}
use async_wal_db.Errors.{WalError, Result, ok, err, panic, unfinished}
use async_wal_db.Wal.{WalStorage}
use async_wal_db.Store.{Store}
use async_wal_db.Database.{
  Database, Action, on_wal, on_store, continue, ◌>>=◌, Opening, opened, open_log, recover_from_log,
  remember, open_bytes,
}
use async_wal_db.Prelude.{some, bytes_eq}
use async_wal_db.Prelude.Map
use async_wal_db.Entry.{Bytes}
use async_wal_db.Frame.{Codec, Reader, eof}
use async_wal_db.Recovery.{recover, recover_with_validation}

-- A chain that succeeds: its first part has succeeded, and the rest goes on from there.
pub record Chain {A B : Type 0} (m : Action A) (f : A → Action B) (db : Database) : Type 0 where
  pub mid : Database
  pub value : A
  pub first : m db ≡ (mid, ok value)
  pub rest : (m >>= f) db ≡ f value mid

pub Chain-ok :
    {A B : Type 0} (m : Action A) (f : A → Action B) (db : Database) (b : B)
    → ((m >>= f) db).1 ≡ ok b
    → Chain m f db
unfolding ◌>>=◌ continue
Chain-ok {A} {B} m f db b h = split (m db).1 refl
  where
    split : (r : Result A) → (m db).1 ≡ r → Chain m f db
    split (ok a) e = record {
      mid = (m db).0;
      value = a;
      first = ap (λ x. ((m db).0, x)) e;
      rest = rw e;
    }
    split (err x) e = absurd (cc (e, h))
    split panic e = absurd (cc (e, h))
    split unfinished e = absurd (cc (e, h))

pub >>=-ok :
    {A B : Type 0} (m : Action A) (f : A → Action B) (db mid : Database) (a : A)
    → m db ≡ (mid, ok a)
    → (m >>= f) db ≡ f a mid
unfolding ◌>>=◌ continue
>>=-ok m f db mid a h = rw h

pub >>=-err :
    {A B : Type 0} (m : Action A) (f : A → Action B) (db mid : Database) (e : WalError)
    → m db ≡ (mid, err e)
    → (m >>= f) db ≡ (mid, err e)
unfolding ◌>>=◌ continue
>>=-err m f db mid e h = rw h

pub on_wal_ok :
    (f : WalStorage → WalStorage × Result (Unit {0})) (db db' : Database)
    → on_wal f db ≡ (db', ok tt)
    → ((f db.wal).1 ≡ ok tt) × (db' ≡ record db { wal = (f db.wal).0 })
unfolding on_wal
on_wal_ok f db db' h = (ap (λ p. p.1) h, sym (ap (λ p. p.0) h))

pub on_store_ok :
    (f : Store → Store × Result (Unit {0})) (db db' : Database)
    → on_store f db ≡ (db', ok tt)
    → ((f db.store).1 ≡ ok tt) × (db' ≡ record db { store = (f db.store).0 })
unfolding on_store
on_store_ok f db db' h = (ap (λ p. p.1) h, sym (ap (λ p. p.0) h))

-- Recovery of a log that can be opened: the log itself is left as it is.
pub recover_from_log-reader :
    (c : Codec) (how : Opening) (db : Database) (r : Reader)
    → open_log how db.wal ≡ some r
    → let (m, result) =
        recover_with_validation c
          (some r)
          (record { store = db.store; next_tx_id = db.next_tx_id }) in
      recover_from_log c how db ≡ (record db { store = m.store; next_tx_id = m.next_tx_id }, result)
unfolding recover_from_log remember recover
recover_from_log-reader c how db r e = rw e

pub open_log-reader :
    (w : WalStorage) (bytes : Bytes)
    → Map.get w.path w.files ≡ some bytes
    → open_log opened w ≡ some (record { bytes = bytes; tail = eof })
unfolding open_log open_bytes
open_log-reader w bytes e = rw e

-- Recovery reads the log, and leaves it alone.
pub recover_from_log-wal :
    (c : Codec) (how : Opening) (db : Database) → (recover_from_log c how db).0.wal ≡ db.wal
unfolding recover_from_log remember
recover_from_log-wal c how db = refl
