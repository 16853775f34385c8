-- ===== src/Session/Start.antt =====
-- How a process begins: a new database on a new log, or on a log that it recovers.
use mathlib.Core.List.{foldl, append-nil}
use async_wal_db.Prelude.{
  ℕ, ◌-◌, ◌^◌, ◌<◌, ◌≡◌, ◌≢◌, refl, sym, ap, ◌∙◌, arith, List, [], ◌∷◌, some, length, All, bytes_eq,
  bytes_beq_iff, nat_beq, nat_beq_iff, Bool-cases, inl, inr,
}
use async_wal_db.Prelude.Map
use async_wal_db.Prelude.Map.{get-insert}
use async_wal_db.Errors.{ok}
use async_wal_db.Entry.{Bytes, WalEntry, tx_id_of}
use async_wal_db.Frame.{Codec, IsLawful, eof}
use async_wal_db.Frame.RoundTrip.{reader}
use async_wal_db.Store.{redo}
use async_wal_db.Wal
use async_wal_db.Wal.{Files, contents, log_file, encode_batch}
use async_wal_db.Wal.Encode.{Encodes, Encodes-cons}
use async_wal_db.Wal.Holds.{CanEncode, Holds}
use async_wal_db.Recovery.{Memory, RecoveryStats, observe, empty_scan}
use async_wal_db.Recovery.Crash.{reads-log, recover-log}
use async_wal_db.Recovery.Counter.{recover_counter, finish-word}
use async_wal_db.Recovery.Tracking.{entries_of, final_marker}
use async_wal_db.Recovery.Serial.{serial, recover-serial}
use async_wal_db.Recovery.Extend.{AllBelow}
use async_wal_db.Database
use async_wal_db.Database.{Database, opened, open_log, recover_from_log}
use async_wal_db.Database.Config
use async_wal_db.Database.Chain.{recover_from_log-reader, open_log-reader}
use async_wal_db.Session.Consistent.{Consistent}

AllBelow-occurs :
    (n : ℕ) (es : List WalEntry) → ((i : ℕ) → entries_of i es ≢ [] → i < n) → AllBelow n es
AllBelow-occurs n [] h = tt
AllBelow-occurs n (e ∷ es) h =
    (h (tx_id_of e) here, AllBelow-occurs n es (λ i occurs. h i (λ p. occurs (there i p))))
  where
    here : entries_of (tx_id_of e) (e ∷ es) ≢ []
    here p = cc (rw ((nat_beq_iff (tx_id_of e) (tx_id_of e)).1 refl) at p)

    there : (i : ℕ) → entries_of i (e ∷ es) ≡ [] → entries_of i es ≡ []
    there i p = elim (Bool-cases (nat_beq (tx_id_of e) i)) [
      | inl same ↦ absurd (cc (rw same at p))
      | inr other ↦ rw other at p
    ]

All-Encodes : (c : Codec) (es : List WalEntry) (b : Bytes) → Encodes c es b → All (CanEncode c) es
All-Encodes c [] b h = tt
All-Encodes c (e ∷ es) b h =
    let s = Encodes-cons c e es b h in (rw (s.framed) refl, All-Encodes c es s.rest s.others)

module _ (files : Files) (n : ℕ) (path : Bytes) where
  pub new-store : (Database.new files n path).store ≡ []
  unfolding Database.new Database.build
  new-store = refl

  pub new-idle : (Database.new files n path).wal.pending ≡ []
  unfolding Database.new Database.build Wal.with_config Config.new
  new-idle = refl

  pub new-size : (Database.new files n path).wal.max_queue_size ≡ 10_000
  unfolding Database.new Database.build Wal.with_config Config.new
  new-size = refl

  pub new-file :
      Map.get (Database.new files n path).wal.path (Database.new files n path).wal.files
      ≡ some (contents (Map.get path files))
  unfolding Database.new Database.build Wal.with_config Config.new
  new-file =
      get-insert path path (contents (Map.get path files)) files
      ∙ rw ((bytes_beq_iff path path).1 refl)

  pub log_file-new : log_file (Database.new files n path).wal ≡ contents (Map.get path files)
  log_file-new = ap contents new-file

  new-Holds :
      (c : Codec) (es : List WalEntry)
      → Encodes c es (contents (Map.get path files))
      → Holds c (Database.new files n path).wal es
  unfolding Database.new Database.build Wal.with_config Config.new
  new-Holds c es h = record {
    logged = es;
    encoded = rw (log_file-new) h;
    split = append-nil es;
    settled = record {
      unbuffered = refl;
      synced = ap (length {A = ℕ}) (sym log_file-new);
      exact = refl;
      word = omega arith;
    };
    word = omega arith;
  }

  pub open_log-new :
      open_log opened (Database.new files n path).wal
      ≡ some (reader (contents (Map.get path files)) eof)
  open_log-new =
      open_log-reader (Database.new files n path).wal (contents (Map.get path files)) new-file

  -- A database that has just been opened, on an intact log of `es` that has fewer than 2 ^ 64 bytes
  -- and numbers below 2 ^ 64 - 1, and has recovered without an error: its store is what the log makes
  -- of the empty one, its queue is settled, and the numbers that it will give are above all numbers
  -- of the log.
  pub recover_from_log-Consistent :
      {c : Codec}
      → IsLawful c
      → (es : List WalEntry) (st : RecoveryStats) → Encodes c es (contents (Map.get path files))
      → length (contents (Map.get path files)) < 2 ^ 64
      → All (λ e. tx_id_of e < 2 ^ 64 - 1) es
      → (recover_from_log c opened (Database.new files n path)).1 ≡ ok st
      → Consistent c es (recover_from_log c opened (Database.new files n path)).0
  recover_from_log-Consistent {c} l es st h small bound done =
      let db = Database.new files n path in
      let m : Memory = record { store = db.store; next_tx_id = db.next_tx_id } in
      let log = contents (Map.get path files) in
      let form = recover_from_log-reader c opened db (reader log eof) open_log-new in
      let succeeded = sym (ap (λ p. p.1) form) ∙ done in
      let (ids, committed, recovered) = recover-serial l m es log h small in
      rw form record {
        holds = new-Holds c es h;
        writable = All-Encodes c es log h;
        ids = ids;
        committed = committed;
        replayed = recovered ∙ ap (λ s. foldl redo s (serial ids es)) new-store;
        below =
            AllBelow-occurs _ es
              (recover_counter (reads-log c l es log h).reads m st small succeeded bound);
      }

  -- The counter stays a `u64`.
  pub recover_from_log-word :
      {c : Codec}
      → IsLawful c
      → (es : List WalEntry) → Encodes c es (contents (Map.get path files))
      → length (contents (Map.get path files)) < 2 ^ 64
      → n < 2 ^ 64
      → (recover_from_log c opened (Database.new files n path)).0.next_tx_id < 2 ^ 64
  unfolding Database.new Database.build
  recover_from_log-word {c} l es h small word =
      let db = Database.new files n path in
      let m : Memory = record { store = db.store; next_tx_id = db.next_tx_id } in
      let form =
        recover_from_log-reader c opened db (reader (contents (Map.get path files)) eof)
          open_log-new in
      let finished = finish-word m (foldl observe empty_scan es) word in
      omega (
        arith,
        finished,
        ap (λ r. r.0.next_tx_id) form,
        ap (λ (x : Memory). x.next_tx_id)
            (recover-log l m es (contents (Map.get path files)) h small),
      )

  -- A new database on a log that is not there or empty.
  pub new-Consistent :
      (c : Codec) → contents (Map.get path files) ≡ [] → Consistent c [] (Database.new files n path)
  unfolding encode_batch final_marker
  new-Consistent c h = record {
    holds = new-Holds c [] (rw h);
    writable = tt;
    ids = [];
    committed = record { ascending = tt; exact = λ i. refl };
    replayed = new-store;
    below = tt;
  }
