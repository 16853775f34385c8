-- ===== src/Session/Consistent.antt =====
-- A database whose store is determined by what has been appended, and what one more transaction
-- makes of it.
use mathlib.Core.List.{foldl, foldl-append}
use async_wal_db.Prelude.{
  ℕ, ◌+◌, ◌≡◌, refl, sym, ap, ◌∙◌, arith, List, [], ◌∷◌, ◌++◌, false, All, All-append,
}
use async_wal_db.Entry.{WalEntry, tx_id_of}
use async_wal_db.Frame.{Codec}
use async_wal_db.Store.{Store, redo}
use async_wal_db.Wal.Holds.{CanEncode, Holds}
use async_wal_db.Recovery.Serial.{serial, Committed}
use async_wal_db.Recovery.Tracking.{says_commit, final_marker}
use async_wal_db.Recovery.Extend.{AllOf, AllBelow, NoMarker}
use async_wal_db.Recovery.Block.{Committed-other, Committed-commit}
use async_wal_db.Database.{Database}
use async_wal_db.Transaction.{World}
use async_wal_db.Session.{Ending, commits, aborts, drops}

-- The store is what the committed transactions of `total`, all that was appended, make of the empty
-- one, and numbers to come are fresh.
pub record Consistent (c : Codec) (total : List WalEntry) (db : Database) : Type 0 where
  pub holds : Holds c db.wal total
  pub writable : All (CanEncode c) total
  pub ids : List ℕ
  pub committed : Committed total ids
  pub replayed : db.store ≡ foldl redo [] (serial ids total)
  pub below : AllBelow db.next_tx_id total

-- The marker of the session can be serialized.
abbrev pub CanConclude : Codec → ℕ → Ending → World → Type 0
CanConclude c i commits world = CanEncode c (WalEntry.commit i world.timestamp)
CanConclude c i aborts world = CanEncode c (WalEntry.abort i world.timestamp)
CanConclude c i drops world = Unit

AllBelow-next :
    (i : ℕ) (before block : List WalEntry)
    → AllBelow i before
    → AllOf i block
    → AllBelow (i + 1) (before ++ block)
AllBelow-next i [] [] b o = tt
AllBelow-next i [] (e ∷ block) b o = (omega (arith, o.0), AllBelow-next i [] block b o.1)
AllBelow-next i (e ∷ before) block b o = (omega (arith, b.0), AllBelow-next i before block b.1 o)

-- The store and the log at the beginning of transaction `i`.
pub record Before (i : ℕ) (before : List WalEntry) (store : Store) (start : List ℕ) : Type 0 where
  pub committed : Committed before start
  pub replayed : store ≡ foldl redo [] (serial start before)
  pub below : AllBelow i before

module _ (c : Codec) (i : ℕ) (before : List WalEntry) (store : Store) (start : List ℕ) where
  -- A block behind the earlier entries that does not commit.
  pub uncommitted-Consistent :
      (block : List WalEntry) (db : Database)
      → Before i before store start
      → AllOf i block
      → says_commit (final_marker i block) ≡ false
      → db.store ≡ store
      → db.next_tx_id ≡ i + 1
      → Holds c db.wal (before ++ block)
      → All (CanEncode c) (before ++ block)
      → Consistent c (before ++ block) db
  uncommitted-Consistent block db b own idle same counter h all =
      let (committed, unchanged) =
        Committed-other i start before block b.committed b.below own idle in
      record {
        holds = h;
        writable = all;
        ids = start;
        committed = committed;
        replayed = same ∙ b.replayed ∙ ap (foldl redo []) (sym unchanged);
        below = rw counter (AllBelow-next i before block b.below own);
      }

  pub committed-Consistent :
      (t : ℕ) (ops : List WalEntry) (db : Database)
      → Before i before store start
      → AllOf i ops
      → NoMarker ops
      → db.store ≡ foldl redo store ops
      → db.next_tx_id ≡ i + 1
      → Holds c db.wal (before ++ (ops ++ WalEntry.commit i t ∷ []))
      → All (CanEncode c) (before ++ (ops ++ WalEntry.commit i t ∷ []))
      → Consistent c (before ++ (ops ++ WalEntry.commit i t ∷ [])) db
  committed-Consistent t ops db b own changes same counter h all =
      let (committed, more) =
        Committed-commit i t start before ops b.committed b.below own changes in
      record {
        holds = h;
        writable = all;
        ids = start ++ i ∷ [];
        committed = committed;
        replayed =
            same
            ∙ ap (λ s. foldl redo s ops) b.replayed
            ∙ sym (foldl-append redo [] (serial start before) ops)
            ∙ ap (foldl redo []) (sym more);
        below = rw counter (
            AllBelow-next i before (ops ++ WalEntry.commit i t ∷ []) b.below
              (All-append (λ e. tx_id_of e ≡ i) ops (WalEntry.commit i t ∷ []) own (refl, tt)));
      }
