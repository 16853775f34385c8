-- ===== src/Lmdb.antt =====
-- `LmdbStorage` of src/lmdb_storage.rs. The package `heed`, which wraps LMDB, is a parameter.
pub mod Package
pub mod Calls
pub mod Writes
pub mod Effects
pub mod Answers
pub mod Success
pub mod Tests
use async_wal_db.Prelude.{◌*◌, Bool, true, false, Option, none, some, if◌then◌else◌}
use async_wal_db.Errors.{Result, ok, err, panic, unfinished, io}
use async_wal_db.Entry.{Bytes}
use Package.{Heed}

-- The handle of the main database is the same for all methods; the environment is kept with the
-- data that it holds.
pub record LmdbStorage (h : Heed) : Type 0 where
  pub env : h.Env

-- `map_err` with a text about the call in front of `?`.
abbrev pub or_io {ℓ} : {A : Type ℓ} → Option A → Result A
or_io none = err io
or_io (some a) = ok a

infixl 5 ◌>>=◌
-- `?`
abbrev pub ◌>>=◌ {ℓ k} : {A : Type ℓ} {B : Type k} → Result A → (A → Result B) → Result B
ok a >>= f = f a
err e >>= f = err e
panic >>= f = panic
unfinished >>= f = unfinished

module _ (h : Heed) where
  -- `wtxn.commit()`
  abbrev pub committed : {A : Type 0} → A → h.Env × Bool → LmdbStorage h × Result A
  committed a (env, true) = (record { env = env }, ok a)
  committed a (env, false) = (record { env = env }, err io)

  -- What the operations of a transaction come to: it is committed, or at an error dropped.
  unfoldable pub conclude :
      {A : Type 0} → LmdbStorage h → Result (h.RwTxn × A) → LmdbStorage h × Result A
  conclude s (ok (wtxn, a)) = committed a (h.commit wtxn s.env)
  conclude s (err e) = (s, err e)
  conclude s panic = (s, panic)
  conclude s unfinished = (s, unfinished)

  abbrev pub opened : LmdbStorage h × Result (Unit {0}) → Result (LmdbStorage h)
  opened (s, r) = r >>= λ u. ok s

  -- The transaction of `new` that creates the main database.
  pub create : h.Env → Result (LmdbStorage h)
  unfolding conclude
  create env = do
    wtxn ← or_io (h.write_txn env)
    wtxn' ← or_io (h.create_database wtxn)
    opened (conclude (record { env = env }) (ok (wtxn', tt)))

  -- `created` tells if `create_dir_all` succeeds.
  unfoldable pub new : Bool → Bytes → Result (LmdbStorage h)
  unfolding create
  new created path =
      if created then or_io (h.open_env (1_024 * 1_024 * 1_024) 1 path) >>= create else err io

  unfoldable pub get : Bytes → LmdbStorage h → Result (Option Bytes)
  get key s = do rtxn ← or_io (h.read_txn s.env); or_io (h.get key rtxn)

  unfoldable pub put : Bytes → Bytes → LmdbStorage h → LmdbStorage h × Result (Unit {0})
  unfolding conclude
  put key value s =
      conclude s
        (do wtxn ← or_io (h.write_txn s.env); wtxn' ← or_io (h.put key value wtxn); ok (wtxn', tt))

  unfoldable pub delete : Bytes → LmdbStorage h → LmdbStorage h × Result Bool
  unfolding conclude
  delete key s = conclude s (do wtxn ← or_io (h.write_txn s.env); or_io (h.delete key wtxn))

  -- The closure gets the transaction and leaves it with its own result.
  abbrev pub applied : h.RwTxn × Result (Unit {0}) → Result (h.RwTxn × Unit {0})
  applied (wtxn, r) = r >>= λ u. ok (wtxn, u)

  unfoldable pub batch_write :
      (h.RwTxn → h.RwTxn × Result (Unit {0})) → LmdbStorage h → LmdbStorage h × Result (Unit {0})
  unfolding conclude
  batch_write f s = conclude s (do wtxn ← or_io (h.write_txn s.env); applied (f wtxn))
