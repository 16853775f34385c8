-- ===== src/Workers/Values.antt =====
-- The values that the keys of a store get in the end, where each key is only ever given one value.
use mathlib.Core.List.{foldl}
use async_wal_db.Prelude.{
  ◌≡◌, refl, ap, ◌∙◌, List, [], ◌∷◌, Bool, true, false, ◌||◌, Option, some, All, if◌then◌else◌,
  bytes_eq, bytes_beq, bytes_beq_iff, Bool-cases, inl, inr, arith, ℕ, any_of,
}
use async_wal_db.Prelude.Map
use async_wal_db.Prelude.Map.{get-insert}
use async_wal_db.Errors.{ok}
use async_wal_db.Entry.{Bytes, WalEntry, tx_id_of}
use async_wal_db.Store.{Store, redo}
use async_wal_db.Database.{Database, on_store, pure, ◌>>=◌}
use async_wal_db.Transaction.{apply_to_store, apply_entries, stamp}
use async_wal_db.Workers.{Worker, idle, working}

-- An insert of the value that belongs to its key.
abbrev pub Gives : (Bytes → Bytes) → WalEntry → Type 0
Gives value (WalEntry.insert i t key v) = v ≡ value key
Gives value e = false ≡ true

abbrev pub sets : Bytes → WalEntry → Bool
sets k (WalEntry.insert i t key v) = bytes_beq key k
sets k e = false

abbrev pub sets_any : Bytes → List WalEntry → Bool
sets_any k es = any_of (sets k) es

abbrev pub sets_job : Bytes → List (List WalEntry) → Bool
sets_job k jobs = any_of (sets_any k) jobs

-- Whether a task will set the key at a commit that is still to come.
abbrev pub will_set : Bytes → Worker → Bool
will_set k (idle jobs) = sets_job k jobs
will_set k (working tx ops jobs) = sets_any k tx.entries || sets_any k ops || sets_job k jobs

abbrev pub any_will_set : Bytes → List Worker → Bool
any_will_set k ws = any_of (will_set k) ws

-- What the key will have.
abbrev pub promised : (Bytes → Bytes) → Bytes → Bool → Store → Option Bytes
promised value k set store = if set then some (value k) else Map.get k store

module _ (value : Bytes → Bytes) (k : Bytes) where
  get-redo :
      (e : WalEntry) (store : Store)
      → Gives value e
      → Map.get k (redo store e) ≡ promised value k (sets k e) store
  unfolding redo
  get-redo (WalEntry.insert i t key v) store g =
      get-insert key k v store ∙ elim (Bool-cases (bytes_beq key k)) [
        | inl same ↦ rw same (ap (λ x. some x) (g ∙ ap value ((bytes_beq_iff key k).0 same)))
        | inr other ↦ rw other
      ]
  get-redo (WalEntry.update i t key old new) store g = absurd (cc)
  get-redo (WalEntry.delete i t key old) store g = absurd (cc)
  get-redo (WalEntry.commit i t) store g = absurd (cc)
  get-redo (WalEntry.abort i t) store g = absurd (cc)

  one-promised :
      (e : WalEntry) (later : Bool) (store : Store)
      → Gives value e
      → promised value k later (redo store e) ≡ promised value k (sets k e || later) store
  one-promised e later store g = ground (arith, get-redo e store g)

  -- The operations of a commit keep the promise for the key.
  pub redo-promised :
      (es : List WalEntry) (later : Bool) (store : Store)
      → All (Gives value) es
      → promised value k later (foldl redo store es)
        ≡ promised value k (sets_any k es || later) store
  redo-promised [] later store g = refl
  redo-promised (e ∷ es) later store g =
      redo-promised es later (redo store e) g.1
      ∙ one-promised e (sets_any k es || later) store g.0
      ∙ ap (λ b. promised value k b store) (ground arith)

-- An insert never fails.
pub apply_entries-Gives :
    (value : Bytes → Bytes) (es : List WalEntry) (db : Database)
    → All (Gives value) es
    → apply_entries es db ≡ (record db { store = foldl redo db.store es }, ok tt)
unfolding apply_entries redo on_store apply_to_store pure ◌>>=◌
apply_entries-Gives value [] db g = refl
apply_entries-Gives value (WalEntry.insert i t key v ∷ es) db g =
    apply_entries-Gives value es (record db { store = Map.insert key v db.store }) g.1
apply_entries-Gives value (WalEntry.update i t key old new ∷ es) db g = absurd (cc (g.0))
apply_entries-Gives value (WalEntry.delete i t key old ∷ es) db g = absurd (cc (g.0))
apply_entries-Gives value (WalEntry.commit i t ∷ es) db g = absurd (cc (g.0))
apply_entries-Gives value (WalEntry.abort i t ∷ es) db g = absurd (cc (g.0))

-- Stamping leaves the key and the value.
pub record Stamped (value : Bytes → Bytes) (id now : ℕ) (op : WalEntry) : Type 0 where
  pub entry : WalEntry
  pub is_stamped : stamp id now op ≡ some entry
  pub gives : Gives value entry
  pub same : (k : Bytes) → sets k entry ≡ sets k op
  pub own : tx_id_of entry ≡ id

pub stamp-Gives :
    (value : Bytes → Bytes) (id now : ℕ) (op : WalEntry) → Gives value op → Stamped value id now op
unfolding stamp
stamp-Gives value id now (WalEntry.insert i t key v) g = record {
  entry = _;
  is_stamped = refl;
  gives = g;
  same = λ k. refl;
  own = refl;
}
stamp-Gives value id now (WalEntry.update i t key old new) g = absurd (cc)
stamp-Gives value id now (WalEntry.delete i t key old) g = absurd (cc)
stamp-Gives value id now (WalEntry.commit i t) g = absurd (cc)
stamp-Gives value id now (WalEntry.abort i t) g = absurd (cc)
