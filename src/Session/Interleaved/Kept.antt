-- ===== src/Session/Interleaved/Kept.antt =====
-- What open transactions keep between the log and the store, whatever their order.
use mathlib.Core.List.{foldl}
use async_wal_db.Prelude.{
  ℕ, ◌+◌, ◌%◌, ◌^◌, ◌<◌, ◌≤◌, ◌≡◌, refl, sym, ap, ◌∙◌, arith, List, [], ◌∷◌, ◌++◌, none, false, All,
  All-append,
}
use async_wal_db.Errors.{ok}
use async_wal_db.Entry.{WalEntry, tx_id_of, is_marker}
use async_wal_db.Frame.{Codec}
use async_wal_db.Store.{redo}
use async_wal_db.Wal.Holds.{CanEncode, Holds, append-Holds}
use async_wal_db.Recovery.Tracking.{says_commit, marker_of}
use async_wal_db.Recovery.Serial.{serial, Committed}
use async_wal_db.Recovery.Extend.{AllBelow}
use async_wal_db.Recovery.Further.{
  changes_of-change, serial-further, final_marker-last, open-apart, Committed-further,
}
use async_wal_db.Transaction.{Transaction, World, begin_transaction, append_op, add_entry, stamp}
use async_wal_db.Transaction.Steps.{append_op-Appended, stamp-own}
use async_wal_db.Session.Open.{IsCalm, CanWrite, CanWrite-some, value_of}
use async_wal_db.Session.Interleaved.{Work}
use async_wal_db.Session.Interleaved.Open.{
  IsRunning, AllApart, higher-IsRunning, further-IsRunning, next-apart, begun-IsRunning,
}

-- The log holds `total`; the store is what the committed transactions make of the empty one.
pub record IsKept (c : Codec) (total : List WalEntry) (s : Work) : Type 0 where
  pub holds : Holds c s.db.wal total
  pub writable : All (CanEncode c) total
  pub committed : Committed total s.committed
  pub replayed : s.db.store ≡ foldl redo [] (serial s.committed total)
  pub below : AllBelow s.db.next_tx_id total
  pub running : All (IsRunning s.db.next_tx_id total) s.running
  pub apart : AllApart s.running

AllBelow-higher : (n n' : ℕ) (total : List WalEntry) → n ≤ n' → AllBelow n total → AllBelow n' total
AllBelow-higher n n' [] le h = tt
AllBelow-higher n n' (e ∷ es) le h = (omega (arith, le, h.0), AllBelow-higher n n' es le h.1)

marker_of-change : (i : ℕ) (e : WalEntry) → is_marker e ≡ false → marker_of i e ≡ none
marker_of-change i (WalEntry.insert j t k v) h = refl
marker_of-change i (WalEntry.update j t k o v) h = refl
marker_of-change i (WalEntry.delete j t k o) h = refl
marker_of-change i (WalEntry.commit j t) h = absurd (cc (h))
marker_of-change i (WalEntry.abort j t) h = absurd (cc (h))

pub begins-IsKept :
    (c : Codec) (total : List WalEntry) (s : Work)
    → s.db.next_tx_id + 1 < 2 ^ 64
    → IsKept c total s
    → IsKept c total (record s {
      db = (begin_transaction s.db).0;
      running = (begin_transaction s.db).1 ∷ s.running;
    })
unfolding begin_transaction
begins-IsKept c total s small k =
    let n = s.db.next_tx_id in
    let next : (n + 1) % 2 ^ 64 ≡ n + 1 = omega arith in
    rw next record {
      holds = k.holds;
      writable = k.writable;
      committed = k.committed;
      replayed = k.replayed;
      below = AllBelow-higher n (n + 1) total (omega arith) k.below;
      running = (
        begun-IsRunning n total k.below,
        higher-IsRunning n (n + 1) total s.running (omega arith) k.running,
      );
      apart = (next-apart n total s.running k.running, k.apart);
    }

-- An operation of an open transaction.
pub appends-IsKept :
    (c : Codec) (total : List WalEntry) (s : Work) (tx tx' : Transaction)
    (others : List Transaction) (world : World) (op : WalEntry)
    → s.running ≡ tx ∷ others
    → IsCalm world
    → CanWrite c (stamp tx.id world.timestamp op)
    → (append_op c world tx op s.db).1 ≡ ok tx'
    → IsKept c total s
    → (e : WalEntry) × IsKept c
        (total ++ e ∷ [])
        (record s { db = (append_op c world tx op s.db).0; running = tx' ∷ others })
unfolding add_entry
appends-IsKept c total s tx tx' others world op now calm can r k =
    let a = append_op-Appended c world tx tx' op s.db r in
    let e = a.entry in
    let (own, change) = stamp-own tx.id world.timestamp op e a.is_stamped in
    let running : All (IsRunning s.db.next_tx_id total) (tx ∷ others) = rw now at k.running in
    let apart : AllApart (tx ∷ others) = rw now at k.apart in
    let me = running.0 in
    let far = open-apart tx.id e own total s.committed k.committed me.unended in
    let value : add_entry tx e ≡ tx' = value_of (sym (ap (λ p. p.1) a.returned) ∙ r) in
    let quiet = marker_of-change tx.id e change in
    (
      e,
      rw (a.returned, sym value)
          record {
            holds =
                append-Holds c world.while_waiting e s.db.wal total calm.waiting k.holds k.writable
                  a.queued;
            writable =
                All-append (CanEncode c) total (e ∷ []) k.writable
                  (CanWrite-some c (stamp tx.id world.timestamp op) e a.is_stamped can, tt);
            committed =
                Committed-further tx.id e own total s.committed k.committed me.unended
                  (ap says_commit quiet);
            replayed =
                k.replayed
                ∙ ap (foldl redo []) (sym (serial-further tx.id e own total s.committed far));
            below =
                All-append (λ x. tx_id_of x < s.db.next_tx_id) total (e ∷ []) k.below
                  (omega (arith, own, me.below), tt);
            running = (
              record {
                is_active = me.is_active;
                buffered =
                    ap (λ l. l ++ e ∷ []) me.buffered
                    ∙ sym (changes_of-change tx.id e own total change);
                unended = final_marker-last tx.id e own total me.unended ∙ quiet;
                below = me.below;
              },
              further-IsRunning tx.id s.db.next_tx_id e total others own apart.0 running.1,
            );
            apart = apart;
          },
    )
