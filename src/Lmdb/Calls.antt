-- ===== src/Lmdb/Calls.antt =====
-- Programs over the methods of `LmdbStorage`, and what a map answers to the same calls.
use mathlib.Core.List.{foldl}
use async_wal_db.Prelude.{◌≡◌, List, [], ◌∷◌, Bool, Option, none, some, bytes_eq, All}
use async_wal_db.Prelude.Map
use async_wal_db.Errors.{Result, ok, err, panic, unfinished, io}
use async_wal_db.Entry.{Bytes}
use async_wal_db.Store.{Store}
use async_wal_db.Lmdb.Package.{Heed, is_some, IsKey}
use async_wal_db.Lmdb
use async_wal_db.Lmdb.{LmdbStorage}

pub data Write : Type 0 where
  put : (key value : Bytes) → Write
  delete : (key : Bytes) → Write

-- `batch` is a `batch_write` with a closure that makes these writes one after the other, each with
-- `?`, so that the first error ends it.
pub data Call : Type 0 where
  get : (key : Bytes) → Call
  write : Write → Call
  batch : List Write → Call

pub data Reply : Type 0 where
  found : Option Bytes → Reply
  done : Reply
  deleted : Bool → Reply

abbrev pub reply {ℓ} : {A : Type ℓ} → (A → Reply) → Result A → Result Reply
reply f (ok a) = ok (f a)
reply f (err e) = err e
reply f panic = panic
reply f unfinished = unfinished

module _ (h : Heed) where
  abbrev pub write_in : Write → h.RwTxn → Option h.RwTxn
  write_in (put key value) wtxn = h.put key value wtxn
  write_in (delete key) wtxn = elim (h.delete key wtxn) [ none ↦ none | some r ↦ some r.0 ]

  abbrev pub writes_in : List Write → h.RwTxn → h.RwTxn × Result (Unit {0})
  writes_in [] wtxn = (wtxn, ok tt)
  writes_in (w ∷ ws) wtxn = elim (write_in w wtxn) [
    | none ↦ (wtxn, err io)
    | some wtxn' ↦ writes_in ws wtxn'
  ]

  abbrev pub step : Call → LmdbStorage h → LmdbStorage h × Result Reply
  step (get key) s = (s, reply found (Lmdb.get h key s))
  step (write (put key value)) s = let (s', r) = Lmdb.put h key value s in (s', reply (λ u. done) r)
  step (write (delete key)) s = let (s', r) = Lmdb.delete h key s in (s', reply deleted r)
  step (batch ws) s = let (s', r) = Lmdb.batch_write h (writes_in ws) s in (s', reply (λ u. done) r)

  abbrev pub run : List Call → LmdbStorage h → LmdbStorage h × List (Result Reply)
  run [] s = (s, [])
  run (c ∷ cs) s = let (s', r) = step c s in let (s'', rs) = run cs s' in (s'', r ∷ rs)

-- The same calls on a map.
abbrev pub stored : Store → Write → Store
stored m (put key value) = Map.insert key value m
stored m (delete key) = Map.remove key m

abbrev pub after : Call → Store → Store
after (get key) m = m
after (write w) m = stored m w
after (batch ws) m = foldl stored m ws

abbrev pub answer : Call → Store → Reply
answer (get key) m = found (Map.get key m)
answer (write (put key value)) m = done
answer (write (delete key)) m = deleted (is_some (Map.get key m))
answer (batch ws) m = done

-- The map after the calls that succeeded.
abbrev pub kept : Store → List Call → List (Result Reply) → Store
kept m (c ∷ cs) (ok r ∷ rs) = kept (after c m) cs rs
kept m (c ∷ cs) (r ∷ rs) = kept m cs rs
kept m cs rs = m

-- Each call that succeeds answers what the map does after the successful calls before it.
abbrev pub Answers : Store → List Call → List (Result Reply) → Type 0
Answers m [] [] = Unit
Answers m [] (r ∷ rs) = ⊥
Answers m (c ∷ cs) [] = ⊥
Answers m (c ∷ cs) (ok r ∷ rs) = (r ≡ answer c m) × Answers (after c m) cs rs
Answers m (c ∷ cs) (r ∷ rs) = Answers m cs rs

abbrev pub HasKey : Write → Type 0
HasKey (put key value) = IsKey key
HasKey (delete key) = IsKey key

abbrev pub HasKeys : Call → Type 0
HasKeys (get key) = IsKey key
HasKeys (write w) = HasKey w
HasKeys (batch ws) = All HasKey ws

pub data IsOk {ℓ} {A : Type ℓ} : Result A → Type ℓ where
  is_ok : {a : A} → IsOk (ok a)
