-- ===== src/Checkpoint/Replayed.antt =====
-- What a checkpoint does to the database: on an intact log, and on a damaged one.
use mathlib.Core.List.{foldl}
use async_wal_db.Prelude.{
  ℕ, ◌+◌, ◌<◌, ◌≤◌, ◌^◌, ◌≡◌, ◌≢◌, refl, sym, ap, ◌∙◌, arith, List, true, false, ◌&&◌, some,
  nat_beq, nat_eq, length, Bool-cases, inl, inr, All,
}
use async_wal_db.Prelude.Sort.{has, All-has}
use async_wal_db.Errors.{Result, ok, err, panic, unfinished}
use async_wal_db.Entry.{Bytes, WalEntry}
use async_wal_db.Frame.{Codec, IsLawful, Reader, Frame, header_eof, eof}
use async_wal_db.Frame.RoundTrip.{reader}
use async_wal_db.Store.{Store, redo}
use async_wal_db.Wal.Encode.{Encodes}
use async_wal_db.Recovery.{replay, is_empty}
use async_wal_db.Recovery.Reading.{Reads}
use async_wal_db.Recovery.Damage.{Reads-log}
use async_wal_db.Recovery.Tracking.{get-tx_entries}
use async_wal_db.Recovery.Serial.{serial, Committed, replay-serial}
use async_wal_db.Recovery.{empty_scan, or_default}
use async_wal_db.Prelude.Map
use async_wal_db.Database.{Database, open_log, on_wal, pure}
use async_wal_db.Database.Chain.{Chain-ok, >>=-ok, on_wal_ok}
use async_wal_db.Checkpoint.{
  works, Progress, nothing_read, set_checkpoint, get_last_checkpoint, visit, leave, max_or, no_ids,
  Files, apply_committed, after_read, read_log, checkpoint_since, checkpoint,
}
use async_wal_db.Checkpoint.File.{saved-loaded}
use async_wal_db.Checkpoint.Loop.{newer, visit-newer, visit-tx_entries, read_since-Reads}
use async_wal_db.Checkpoint.Members.{sorted, sorted-Committed, has-sorted, has-max_or, le-max_or}

value_of : {x y : ℕ} → ok x ≡ ok y → x ≡ y
value_of p = cc

module _ (c : Codec) (files : Files) (db : Database) (last : ℕ) where
  pub run-since :
      (get_last_checkpoint files.loading db.wal).1 ≡ ok last
      → checkpoint c files db ≡ checkpoint_since c files last db
  unfolding checkpoint on_wal get_last_checkpoint
  run-since h =
      >>=-ok (on_wal (get_last_checkpoint files.loading)) (checkpoint_since c files) db db last
        (ap (λ r. (db, r)) h)

  -- The path of an existing log is not empty, so the early return is not taken.
  run-Reads :
      {r : Reader} {es : List WalEntry} {n : ℕ} {f : Frame} (reads : Reads c r es n f)
      → (get_last_checkpoint files.loading db.wal).1 ≡ ok last
      → is_empty db.wal.path ≡ false
      → open_log files.opening db.wal ≡ some r
      → checkpoint c files db
        ≡ after_read files last db (leave f (foldl (visit last) nothing_read es))
  unfolding checkpoint_since read_log
  run-Reads {r} {es} {n} {f} reads loaded named open' =
      let guard : (nat_beq last 0 && is_empty db.wal.path) ≡ false = ground (arith, named) in
      run-since loaded
      ∙ rw (guard, open', read_log)
          (ap (after_read files last db)
            (read_since-Reads c last reads (length r.bytes + 1) nothing_read (omega arith)))

  -- What was saved and applied.
  record Applied (s : Progress) (n : ℕ) (out : Database × Result ℕ) : Type 0 where
    some_ids : no_ids s.committed_txs ≡ false
    highest : n ≡ max_or last s.committed_txs
    store : out.0.store ≡ replay s.tx_entries db.store (sorted last s)
    saved : (set_checkpoint files.saving (max_or last s.committed_txs) db.wal).1 ≡ ok tt
    wal : out.0.wal ≡ (set_checkpoint files.saving (max_or last s.committed_txs) db.wal).0

  after_read-Applied :
      (s : Progress) (n : ℕ)
      → (after_read files last db (ok s)).1 ≡ ok n
      → Applied s n (after_read files last db (ok s))
  unfolding after_read apply_committed pure
  after_read-Applied s n h = elim (Bool-cases (no_ids s.committed_txs)) [
    | inl none_new ↦ absurd (cc (rw none_new at h))
    | inr some_new ↦
        let highest = max_or last s.committed_txs in
        let replayed : Database = record db {
          store = replay s.tx_entries db.store (sorted last s);
        } in
        let chain =
          Chain-ok (on_wal (set_checkpoint files.saving highest)) (λ _. pure highest) replayed n
            (rw some_new at h) in
        let (saved, mid) =
          on_wal_ok (set_checkpoint files.saving highest) replayed chain.mid chain.first in
        rw some_new record {
          some_ids = some_new;
          highest = value_of (sym (rw some_new at h) ∙ ap (λ p. p.1) chain.rest);
          store = ap (λ p. p.0.store) chain.rest ∙ ap (λ (d : Database). d.store) mid;
          saved = saved;
          wal = ap (λ p. p.0.wal) chain.rest ∙ ap (λ (d : Database). d.wal) mid;
        }
  ]

  pub after_read-damaged :
      (x : Result Progress)
      → ((s : Progress) → x ≢ ok s)
      → ((after_read files last db x).0 ≡ db) × ((n : ℕ) → (after_read files last db x).1 ≢ ok n)
  unfolding after_read
  after_read-damaged (ok s) h = absurd (h s refl)
  after_read-damaged (err e) h = (refl, λ n p. cc)
  after_read-damaged panic h = (refl, λ n p. cc)
  after_read-damaged unfinished h = (refl, λ n p. cc)

leave-ne-ok : (f : Frame) (s t : Progress) → f ≢ header_eof → leave f s ≢ ok t
unfolding leave
leave-ne-ok header_eof s t h = absurd (h refl)
leave-ne-ok f s t h = λ p. cc

-- If the log can be read up to anything but the end of the file at a header (an entry that is torn
-- in its data, damaged or no entry), a checkpoint does not succeed, and leaves the database as it
-- is: nothing is applied, and no checkpoint is saved.
pub checkpoint_damaged :
    {c : Codec} {r : Reader} {es : List WalEntry} {m : ℕ} {f : Frame} (reads : Reads c r es m f)
    (files : Files) (db : Database) (last : ℕ)
    → f ≢ header_eof
    → (get_last_checkpoint files.loading db.wal).1 ≡ ok last
    → is_empty db.wal.path ≡ false
    → open_log files.opening db.wal ≡ some r
    → ((checkpoint c files db).0 ≡ db) × ((n : ℕ) → (checkpoint c files db).1 ≢ ok n)
checkpoint_damaged {c} {r} {es} {m} {f} reads files db last damaged loaded named open' =
    rw (run-Reads c files db last reads loaded named open') (
      after_read-damaged c files db last (leave f (foldl (visit last) nothing_read es))
        (λ s. leave-ne-ok f (foldl (visit last) nothing_read es) s damaged))

-- What the loop has gathered from `es`, replayed in the order of `sorted`.
pub replay-sorted :
    (last : ℕ) (es : List WalEntry) (store : Store)
    → let s = foldl (visit last) nothing_read es in
      replay s.tx_entries store (sorted last s)
      ≡ foldl redo store (serial (sorted last s) (newer last es))
unfolding Map.get
replay-sorted last es store =
    let s = foldl (visit last) nothing_read es in
    replay-serial (newer last es) s.tx_entries store (sorted last s) (λ i.
      ap (λ (s : Progress). or_default (Map.get i s.tx_entries)) (visit-newer last es nothing_read)
      ∙ ap (λ m. or_default (Map.get i m))
          (visit-tx_entries (newer last es) nothing_read empty_scan refl)
      ∙ get-tx_entries i (newer last es) empty_scan)

-- A checkpoint of an intact log that succeeds replays, on the store, the changes of exactly the
-- transactions behind the last checkpoint whose last marker is a commit, in ascending order; it
-- returns the highest of them, and that is the last checkpoint from then on.
pub checkpoint_replays :
    {c : Codec}
    → IsLawful c
    → (files : Files) (db : Database) (es : List WalEntry) (bytes : Bytes) (last n : ℕ)
    → (get_last_checkpoint files.loading db.wal).1 ≡ ok last
    → is_empty db.wal.path ≡ false
    → Encodes c es bytes
    → open_log files.opening db.wal ≡ some (reader bytes eof)
    → n < 2 ^ 64
    → (checkpoint c files db).1 ≡ ok n
    → (ids : List ℕ) × Committed (newer last es) ids
      × ((checkpoint c files db).0.store ≡ foldl redo db.store (serial ids (newer last es)))
      × (has n ids ≡ true)
      × All (λ i. i ≤ n) ids
      × ((get_last_checkpoint works (checkpoint c files db).0.wal).1 ≡ ok n)
unfolding leave Map.get
checkpoint_replays {c} l files db es bytes last n loaded named h open' small done =
    let whole = run-Reads c files db last (Reads-log l es bytes h) loaded named open' in
    let s = foldl (visit last) nothing_read es in
    let a = after_read-Applied c files db last s n (sym (ap (λ p. p.1) whole) ∙ done) in
    let ids = sorted last s in
    rw (whole) (
      ids,
      sorted-Committed last es,
      a.store ∙ replay-sorted last es db.store,
      has-sorted last es n
          ∙ ap (λ k. has k s.committed_txs) a.highest
          ∙ has-max_or last s.committed_txs a.some_ids,
      All-has (λ i. i ≤ n) ids
          (λ i p.
            omega (
              arith,
              le-max_or last i s.committed_txs (sym (has-sorted last es i) ∙ p),
              a.highest,
            )),
      ap (λ w. (get_last_checkpoint works w).1) a.wal
          ∙ saved-loaded files.saving db.wal (max_or last s.committed_txs)
              (omega (arith, a.highest, small)) a.saved
          ∙ ap ok (sym a.highest),
    )
