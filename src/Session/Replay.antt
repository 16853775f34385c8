-- ===== src/Session/Replay.antt =====
-- Sessions one after the other: the log determines the store.
use mathlib.Core.List.{foldl, append-nil, append_assoc}
use mathlib.Core.Path.{subst}
use async_wal_db.Prelude.{
  ℕ, ◌+◌, ◌^◌, ◌<◌, ◌≡◌, refl, sym, ap, ◌∙◌, arith, List, [], ◌∷◌, ◌++◌, some, All, All-append,
  length,
}
use async_wal_db.Prelude.Sort.{Ascending-unique}
use async_wal_db.Errors.{ok}
use async_wal_db.Entry.{WalEntry, tx_id_of}
use async_wal_db.Frame.{Codec, IsLawful, eof}
use async_wal_db.Frame.RoundTrip.{reader}
use async_wal_db.Store.{Store, redo}
use async_wal_db.Wal.{log_file}
use async_wal_db.Wal.Holds.{CanEncode}
use async_wal_db.Recovery.{Memory, recover_with_validation}
use async_wal_db.Recovery.Serial.{serial, recover-serial}
use async_wal_db.Recovery.Tracking.{says_commit}
use async_wal_db.Recovery.Block.{final_marker-abort, final_marker-changes}
use async_wal_db.Database.{Database, pure}
use async_wal_db.Database.Chain.{Chain-ok}
use async_wal_db.Transaction.{Transaction, World, begin_transaction, abort}
use async_wal_db.Session.{
  Session, Ending, commits, aborts, drops, append_ops, conclude, run, run_all,
}
use async_wal_db.Session.Open.{IsCalm, AreWritable, IsOpen, append_ops-IsOpen}
use async_wal_db.Session.Marker.{commit-Marked, abort-Marked}
use async_wal_db.Session.Consistent.{
  Consistent, CanConclude, Before, uncommitted-Consistent, committed-Consistent,
}

-- What a session leaves: the next number is one higher, and the store still follows from the log.
record Left (c : Codec) (i : ℕ) (db : Database) : Type 0 where
  total : List WalEntry
  consistent : Consistent c total db
  counter : db.next_tx_id ≡ i + 1

conclude-Left :
    (c : Codec) (e : Ending) (world : World) (tx : Transaction) (db : Database) (store : Store)
    (before ops : List WalEntry) (ids : List ℕ)
    → Before tx.id before store ids
    → IsOpen c tx.id (tx.id + 1) store before ops db tx
    → IsCalm world
    → CanConclude c tx.id e world
    → (conclude c e world tx db).1 ≡ ok tt
    → Left c tx.id (conclude c e world tx db).0
unfolding conclude pure
conclude-Left c commits world tx db store before ops ids b o calm can r =
    let m = WalEntry.commit tx.id world.timestamp in
    let (marked, done, applied) =
      commit-Marked c world (before ++ ops) db calm tx o.is_active o.holds o.writable can r in
    let place : before ++ ops ++ m ∷ [] ≡ before ++ (ops ++ m ∷ []) =
      append_assoc before ops (m ∷ []) in
    rw (applied) record {
      total = before ++ (ops ++ m ∷ []);
      consistent =
          committed-Consistent c tx.id before store ids world.timestamp ops
            (record marked { store = foldl redo db.store tx.entries }) b o.own o.changes
            (rw (o.same_store, o.buffered)) (done.same_counter ∙ o.same_counter)
            (rw (sym place) done.holds)
            (rw (sym place)
              (All-append (CanEncode c) (before ++ ops) (m ∷ []) o.writable (can, tt)));
      counter = done.same_counter ∙ o.same_counter;
    }
conclude-Left c aborts world tx db store before ops ids b o calm can r =
    let m = WalEntry.abort tx.id world.timestamp in
    let done =
      abort-Marked c world (before ++ ops) db calm tx o.is_active o.holds o.writable can r in
    let place : before ++ ops ++ m ∷ [] ≡ before ++ (ops ++ m ∷ []) =
      append_assoc before ops (m ∷ []) in
    record {
      total = before ++ (ops ++ m ∷ []);
      consistent =
          uncommitted-Consistent c tx.id before store ids (ops ++ m ∷ []) (abort c world tx db).0 b
            (All-append (λ e. tx_id_of e ≡ tx.id) ops (m ∷ []) o.own (refl, tt))
            (ap says_commit (final_marker-abort tx.id world.timestamp ops))
            (done.same_store ∙ o.same_store) (done.same_counter ∙ o.same_counter)
            (rw (sym place) done.holds)
            (rw (sym place)
              (All-append (CanEncode c) (before ++ ops) (m ∷ []) o.writable (can, tt)));
      counter = done.same_counter ∙ o.same_counter;
    }
conclude-Left c drops world tx db store before ops ids b o calm can r = record {
  total = before ++ ops;
  consistent =
      uncommitted-Consistent c tx.id before store ids ops db b o.own
        (ap says_commit (final_marker-changes tx.id ops o.changes)) o.same_store o.same_counter
        o.holds o.writable;
  counter = o.same_counter;
}

conclude-at :
    (c : Codec) (i : ℕ) (e : Ending) (world : World) (tx : Transaction) (db : Database)
    (store : Store) (before ops : List WalEntry) (ids : List ℕ)
    → tx.id ≡ i
    → Before i before store ids
    → IsOpen c i (i + 1) store before ops db tx
    → IsCalm world
    → CanConclude c i e world
    → (conclude c e world tx db).1 ≡ ok tt
    → Left c i (conclude c e world tx db).0
conclude-at c i e world tx db store before ops ids p b o calm can r =
    subst (λ j. Left c j (conclude c e world tx db).0) p
      (conclude-Left c e world tx db store before ops ids
        (subst (λ j. Before j before store ids) (sym p) b)
        (subst (λ j. IsOpen c j (j + 1) store before ops db tx) (sym p) o) calm
        (subst (λ j. CanConclude c j e world) (sym p) can) r)

-- No disk fails during the session.
pub record IsCalmSession (s : Session) : Type 0 where
  pub appending : All (λ (step : World × WalEntry). IsCalm step.0) s.ops
  pub concluding : IsCalm s.last

-- Every entry of the session can be serialized, where `i` is its number.
pub record IsWritable (c : Codec) (i : ℕ) (s : Session) : Type 0 where
  pub appending : AreWritable c i s.ops
  pub concluding : CanConclude c i s.ending s.last

run-Left :
    (c : Codec) (s : Session) (db : Database) (total : List WalEntry)
    → Consistent c total db
    → IsCalmSession s
    → IsWritable c db.next_tx_id s
    → db.next_tx_id + 1 < 2 ^ 64
    → (run c s db).1 ≡ ok tt
    → Left c db.next_tx_id (run c s db).0
unfolding run begin_transaction
run-Left c s db total k calm can small r =
    let i = db.next_tx_id in
    let (db', tx) = begin_transaction db in
    let chain = Chain-ok (append_ops c s.ops tx) (conclude c s.ending s.last) db' tt r in
    let open' : IsOpen c i (i + 1) db.store total [] db' tx = record {
      same_id = refl;
      is_active = refl;
      buffered = refl;
      same_store = refl;
      same_counter = omega arith;
      own = tt;
      changes = tt;
      holds = rw append-nil (k.holds);
      writable = rw append-nil (k.writable);
    } in
    let (ops, later) =
      append_ops-IsOpen c i (i + 1) db.store total s.ops [] db' tx chain.value open' calm.appending
        can.appending (ap (λ p. p.1) chain.first) in
    let at_mid = ap (λ p. p.0) chain.first in
    let open_mid : IsOpen c i (i + 1) db.store total ops chain.mid chain.value =
      rw (sym at_mid) later in
    rw (chain.rest) (
      conclude-at c i s.ending s.last chain.value chain.mid db.store total ops k.ids
        open_mid.same_id record { committed = k.committed; replayed = k.replayed; below = k.below }
        open_mid calm.concluding can.concluding (sym (ap (λ p. p.1) chain.rest) ∙ r))

-- The sessions number their transactions from `i` on.
abbrev pub AllWritable : Codec → ℕ → List Session → Type 0
AllWritable c i [] = Unit
AllWritable c i (s ∷ ss) = IsWritable c i s × AllWritable c (i + 1) ss

pub run_all-Consistent :
    (c : Codec) (ss : List Session) (db : Database) (total : List WalEntry)
    → Consistent c total db
    → All IsCalmSession ss
    → AllWritable c db.next_tx_id ss
    → db.next_tx_id + length ss < 2 ^ 64
    → (run_all c ss db).1 ≡ ok tt
    → (total' : List WalEntry) × Consistent c total' (run_all c ss db).0
unfolding run_all pure
run_all-Consistent c [] db total k calm can small r = (total, k)
run_all-Consistent c (s ∷ ss) db total k calm can small r =
    let chain = Chain-ok (run c s) (λ _. run_all c ss) db tt r in
    let left : Left c db.next_tx_id chain.mid =
      rw (sym (ap (λ p. p.0) chain.first))
        (run-Left c s db total k calm.0 can.0 (omega arith) (ap (λ p. p.1) chain.first)) in
    rw (chain.rest) (
      run_all-Consistent c ss chain.mid left.total left.consistent calm.1 (rw (left.counter) can.1)
        (omega (arith, left.counter)) (sym (ap (λ p. p.1) chain.rest) ∙ r))

pub Consistent-recover :
    {c : Codec}
    → IsLawful c
    → (total : List WalEntry) (db : Database) (m : Memory) → Consistent c total db
    → m.store ≡ []
    → db.wal.pending ≡ []
    → length (log_file db.wal) < 2 ^ 64
    → (recover_with_validation c (some (reader (log_file db.wal) eof)) m).0.store ≡ db.store
Consistent-recover {c} l total db m k blank idle small =
    let all : k.holds.logged ≡ total =
      sym (append-nil k.holds.logged) ∙ rw (sym idle) k.holds.split in
    let (ids, committed, recovered) =
      recover-serial l m total (log_file db.wal) (rw (sym all) k.holds.encoded) small in
    let same : ids ≡ k.ids =
      Ascending-unique ids k.ids committed.ascending k.committed.ascending
        (λ i. committed.exact i ∙ sym (k.committed.exact i)) in
    recovered
    ∙ ap (λ s. foldl redo s (serial ids total)) blank
    ∙ ap (λ is. foldl redo [] (serial is total)) same
    ∙ sym k.replayed

-- Transactions run one after the other, each committed, aborted or dropped, without an error and on
-- disks that do not fail, with entries that can be serialized and numbers below 2 ^ 64, on a database
-- whose store is what the log makes of the empty store. If nothing is pending at the end, and the log
-- file has fewer than 2 ^ 64 bytes, recovery of it by another process, into an empty store, leaves
-- exactly the store that this one has.
pub run_all-recover :
    {c : Codec}
    → IsLawful c
    → (ss : List Session) (total : List WalEntry) (db : Database) (m : Memory)
    → Consistent c total db
    → All IsCalmSession ss
    → AllWritable c db.next_tx_id ss
    → db.next_tx_id + length ss < 2 ^ 64
    → (run_all c ss db).1 ≡ ok tt
    → m.store ≡ []
    → (run_all c ss db).0.wal.pending ≡ []
    → length (log_file (run_all c ss db).0.wal) < 2 ^ 64
    → (recover_with_validation c (some (reader (log_file (run_all c ss db).0.wal) eof)) m).0.store
      ≡ (run_all c ss db).0.store
run_all-recover {c} l ss total db m k calm can small r blank idle size =
    let (total', left) = run_all-Consistent c ss db total k calm can small r in
    Consistent-recover l total' (run_all c ss db).0 m left blank idle size
