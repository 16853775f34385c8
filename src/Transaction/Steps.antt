-- ===== src/Transaction/Steps.antt =====
-- The parts of a method that has succeeded, and what the methods of a transaction leave alone.
use mathlib.Core.List.{foldl}
use async_wal_db.Prelude.{
  ℕ, ◌≡◌, refl, sym, ap, ◌∙◌, arith, List, [], ◌∷◌, ◌++◌, false, Option, none, some, Option-cases,
  inl, inr, bytes_eq,
}
use async_wal_db.Prelude.Map
use async_wal_db.Errors.{ok, err, apply_store, codes}
use async_wal_db.Entry.{Bytes, WalEntry, tx_id_of, is_marker}
use async_wal_db.Frame.{Codec}
use async_wal_db.Store.{Store, redo}
use async_wal_db.Wal
use async_wal_db.Database.{Database, pure, raise, on_wal, on_store}
use async_wal_db.Database.Chain.{Chain-ok, >>=-err, on_wal_ok, on_store_ok}
use async_wal_db.Transaction.{
  Transaction, World, add_entry, stamp, stamped, append_op, update_present, apply_to_store,
  apply_entries,
}

-- What `append_op` has done when it returns without an error.
pub record Appended (c : Codec) (world : World) (tx : Transaction) (op : WalEntry) (db : Database)
    : Type 0 where
  pub entry : WalEntry
  pub is_stamped : stamp tx.id world.timestamp op ≡ some entry
  pub queued : (Wal.append c world.while_waiting entry db.wal).1 ≡ ok tt
  pub returned : append_op c world tx op db ≡ (
    record db { wal = (Wal.append c world.while_waiting entry db.wal).0 },
    ok (add_entry tx entry),
  )

pub append_op-Appended :
    (c : Codec) (world : World) (tx tx' : Transaction) (op : WalEntry) (db : Database)
    → (append_op c world tx op db).1 ≡ ok tx'
    → Appended c world tx op db
unfolding append_op stamped raise pure
append_op-Appended c world tx tx' op db h = split (stamp tx.id world.timestamp op) refl
  where
    split : (o : Option WalEntry) → stamp tx.id world.timestamp op ≡ o → Appended c world tx op db
    split none e = absurd (cc (rw e at h))
    split (some x) e =
        let chain =
          Chain-ok (on_wal (Wal.append c world.while_waiting x)) (λ _. pure (add_entry tx x)) db tx'
            (rw e at h) in
        let (queued, mid) =
          on_wal_ok (Wal.append c world.while_waiting x) db chain.mid chain.first in
        record {
          entry = x;
          is_stamped = e;
          queued = queued;
          returned = rw e (chain.rest ∙ ap (λ d. (d, ok (add_entry tx x))) mid);
        }

pub stamp-own :
    (i t : ℕ) (op e : WalEntry) → stamp i t op ≡ some e → (tx_id_of e ≡ i) × (is_marker e ≡ false)
unfolding stamp
stamp-own i t (WalEntry.insert j u k v) e h = ground arith
stamp-own i t (WalEntry.update j u k o v) e h = ground arith
stamp-own i t (WalEntry.delete j u k o) e h = ground arith
stamp-own i t (WalEntry.commit j u) e h = absurd (cc)
stamp-own i t (WalEntry.abort j u) e h = absurd (cc)

-- An operation that is applied has the effect of its replay.
apply_to_store-redo :
    (e : WalEntry) (store : Store)
    → (apply_to_store e store).1 ≡ ok tt
    → (apply_to_store e store).0 ≡ redo store e
unfolding apply_to_store redo update_present
apply_to_store-redo (WalEntry.insert j u k v) store h = refl
apply_to_store-redo (WalEntry.update j u k o v) store h = elim (Option-cases (Map.get k store)) [
  | inl absent ↦ absurd (cc (absent, h))
  | inr (x, present) ↦ rw present
]
apply_to_store-redo (WalEntry.delete j u k o) store h = refl
apply_to_store-redo (WalEntry.commit j u) store h = absurd (cc)
apply_to_store-redo (WalEntry.abort j u) store h = absurd (cc)

pub apply_entries-redo :
    (es : List WalEntry) (db : Database)
    → (apply_entries es db).1 ≡ ok tt
    → (apply_entries es db).0 ≡ record db { store = foldl redo db.store es }
unfolding apply_entries pure
apply_entries-redo [] db h = refl
apply_entries-redo (e ∷ es) db h =
    let chain = Chain-ok (on_store (apply_to_store e)) (λ _. apply_entries es) db tt h in
    let (applied, mid) = on_store_ok (apply_to_store e) db chain.mid chain.first in
    let effect = apply_to_store-redo e db.store applied in
    ap (λ p. p.0) chain.rest
    ∙ apply_entries-redo es chain.mid (sym (ap (λ p. p.1) chain.rest) ∙ h)
    ∙ rw (mid, effect)

on_store-refused :
    (i t : ℕ) (k o v : Bytes) (db : Database)
    → Map.get k db.store ≡ none
    → on_store (apply_to_store (WalEntry.update i t k o v)) db
      ≡ (db, err (apply_store (codes "Update on non-existent key: " ++ k)))
unfolding apply_to_store update_present on_store
on_store-refused i t k o v db h = rw (h, update_present)

-- The replay of the buffer stops at an update of a key that is not there.
pub apply_entries-refused :
    (i t : ℕ) (k o v : Bytes) (es : List WalEntry) (db : Database)
    → Map.get k db.store ≡ none
    → apply_entries (WalEntry.update i t k o v ∷ es) db
      ≡ (db, err (apply_store (codes "Update on non-existent key: " ++ k)))
unfolding apply_entries
apply_entries-refused i t k o v es db h =
    let e = WalEntry.update i t k o v in
    >>=-err (on_store (apply_to_store e)) (λ _. apply_entries es) db db
      (apply_store (codes "Update on non-existent key: " ++ k)) (on_store-refused i t k o v db h)
