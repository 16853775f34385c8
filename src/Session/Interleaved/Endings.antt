-- ===== src/Session/Interleaved/Endings.antt =====
-- The end of an open transaction: its marker stands in the log, and after a commit its changes in
-- the store.
use mathlib.Core.List.{foldl, foldl-append, append-nil}
use async_wal_db.Prelude.{
  ◌<◌, ◌≡◌, refl, sym, ap, ◌∙◌, List, [], ◌∷◌, ◌++◌, All, All-append, nat_beq_iff,
}
use async_wal_db.Errors.{ok}
use async_wal_db.Entry.{WalEntry, tx_id_of}
use async_wal_db.Frame.{Codec}
use async_wal_db.Store.{redo}
use async_wal_db.Wal.Holds.{CanEncode}
use async_wal_db.Recovery.Serial.{changes_of, serial}
use async_wal_db.Recovery.Extend.{serial-append}
use async_wal_db.Recovery.Further.{
  changes_of-marker, serial-further, open-apart, Committed-further, Committed-last,
}
use async_wal_db.Transaction
use async_wal_db.Transaction.{
  Transaction, World, begin_transaction, append_op, add_entry, stamp, active,
}
use async_wal_db.Session.Open.{IsCalm}
use async_wal_db.Session.Marker.{commit-Marked, abort-Marked}
use async_wal_db.Session.Interleaved.{Work}
use async_wal_db.Session.Interleaved.Open.{IsRunning, AllApart, further-IsRunning}
use async_wal_db.Session.Interleaved.Kept.{IsKept}

pub commits-IsKept :
    (c : Codec) (total : List WalEntry) (s : Work) (tx : Transaction) (others : List Transaction)
    (world : World)
    → s.running ≡ tx ∷ others
    → IsCalm world
    → CanEncode c (WalEntry.commit tx.id world.timestamp)
    → All (λ j. j < tx.id) s.committed
    → (Transaction.commit c world tx s.db).1 ≡ ok tt
    → IsKept c total s
    → IsKept c (total ++ WalEntry.commit tx.id world.timestamp ∷ []) (record {
      db = (Transaction.commit c world tx s.db).0;
      running = others;
      committed = s.committed ++ tx.id ∷ [];
    })
commits-IsKept c total s tx others world now calm can lower r k =
    let m = WalEntry.commit tx.id world.timestamp in
    let running : All (IsRunning s.db.next_tx_id total) (tx ∷ others) = rw now at k.running in
    let apart : AllApart (tx ∷ others) = rw now at k.apart in
    let me = running.0 in
    let far = open-apart tx.id m refl total s.committed k.committed me.unended in
    let (marked, done, applied) =
      commit-Marked c world total s.db calm tx me.is_active k.holds k.writable can r in
    let changes : serial (s.committed ++ tx.id ∷ []) (total ++ m ∷ [])
        ≡ serial s.committed total ++ tx.entries =
      serial-append s.committed (tx.id ∷ []) (total ++ m ∷ [])
      ∙ ap (λ l. l ++ (changes_of tx.id (total ++ m ∷ []) ++ []))
          (serial-further tx.id m refl total s.committed far)
      ∙ ap (λ l. serial s.committed total ++ l)
          (append-nil (changes_of tx.id (total ++ m ∷ []))
            ∙ changes_of-marker tx.id m refl total refl
            ∙ sym me.buffered) in
    rw (applied, done.same_counter)
      record {
        holds = done.holds;
        writable = All-append (CanEncode c) total (m ∷ []) k.writable (can, tt);
        committed =
            Committed-last tx.id m refl total s.committed k.committed lower me.unended
              (rw ((nat_beq_iff tx.id tx.id).1 refl) refl);
        replayed =
            ap (λ t. foldl redo t tx.entries) k.replayed
            ∙ sym (foldl-append redo [] (serial s.committed total) tx.entries)
            ∙ ap (foldl redo []) (sym changes);
        below =
            All-append (λ x. tx_id_of x < s.db.next_tx_id) total (m ∷ []) k.below (me.below, tt);
        running = further-IsRunning tx.id s.db.next_tx_id m total others refl apart.0 running.1;
        apart = apart.1;
      }

pub aborts-IsKept :
    (c : Codec) (total : List WalEntry) (s : Work) (tx : Transaction) (others : List Transaction)
    (world : World)
    → s.running ≡ tx ∷ others
    → IsCalm world
    → CanEncode c (WalEntry.abort tx.id world.timestamp)
    → (Transaction.abort c world tx s.db).1 ≡ ok tt
    → IsKept c total s
    → IsKept c
        (total ++ WalEntry.abort tx.id world.timestamp ∷ [])
        (record s { db = (Transaction.abort c world tx s.db).0; running = others })
aborts-IsKept c total s tx others world now calm can r k =
    let m = WalEntry.abort tx.id world.timestamp in
    let running : All (IsRunning s.db.next_tx_id total) (tx ∷ others) = rw now at k.running in
    let apart : AllApart (tx ∷ others) = rw now at k.apart in
    let me = running.0 in
    let far = open-apart tx.id m refl total s.committed k.committed me.unended in
    let done = abort-Marked c world total s.db calm tx me.is_active k.holds k.writable can r in
    record {
      holds = done.holds;
      writable = All-append (CanEncode c) total (m ∷ []) k.writable (can, tt);
      committed =
          Committed-further tx.id m refl total s.committed k.committed me.unended
            (rw ((nat_beq_iff tx.id tx.id).1 refl) refl);
      replayed =
          done.same_store
          ∙ k.replayed
          ∙ ap (foldl redo []) (sym (serial-further tx.id m refl total s.committed far));
      below =
          rw (done.same_counter)
            (All-append (λ x. tx_id_of x < s.db.next_tx_id) total (m ∷ []) k.below (me.below, tt));
      running =
          rw (done.same_counter)
            (further-IsRunning tx.id s.db.next_tx_id m total others refl apart.0 running.1);
      apart = apart.1;
    }
