-- ===== src/Session/Open.antt =====
-- A transaction while it is open: its operations are appended, and the store is as before.
use async_wal_db.Prelude.{
  ℕ, ◌≡◌, sym, ap, ◌∙◌, List, [], ◌∷◌, ◌++◌, false, Option, none, some, All, All-append,
}
use mathlib.Core.List.{append_assoc}
use async_wal_db.Errors.{ok}
use async_wal_db.Entry.{WalEntry, tx_id_of, is_marker}
use async_wal_db.Frame.{Codec}
use async_wal_db.Store.{Store}
use async_wal_db.Wal.{fine}
use async_wal_db.Wal.Durable.{IsFine}
use async_wal_db.Wal.Holds.{CanEncode, Holds, append-Holds}
use async_wal_db.Recovery.Extend.{AllOf, NoMarker}
use async_wal_db.Database.{Database, pure}
use async_wal_db.Database.Chain.{Chain-ok}
use async_wal_db.Transaction.{Transaction, active, World, stamp, append_op, add_entry}
use async_wal_db.Transaction.Steps.{Appended, append_op-Appended, stamp-own}
use async_wal_db.Session.{append_ops}

-- No drain fails, in the background or by the caller.
pub record IsCalm (world : World) : Type 0 where
  pub waiting : All IsFine world.while_waiting
  pub polling : All IsFine world.while_polling
  pub flushing : world.disk.outcome ≡ fine

-- What is stamped can be serialized.
abbrev pub CanWrite : Codec → Option WalEntry → Type 0
CanWrite c none = Unit
CanWrite c (some e) = CanEncode c e

abbrev pub AreWritable : Codec → ℕ → List (World × WalEntry) → Type 0
AreWritable c i [] = Unit
AreWritable c i ((world, op) ∷ ops) = CanWrite c (stamp i world.timestamp op) × AreWritable c i ops

pub CanWrite-some :
    (c : Codec) (o : Option WalEntry) (e : WalEntry) → o ≡ some e → CanWrite c o → CanEncode c e
CanWrite-some c none e p h = absurd (cc)
CanWrite-some c (some x) e p h = rw (ok_inj p) at h
  where
    ok_inj : some x ≡ some e → x ≡ e
    ok_inj q = cc

pub value_of : {A : Type 0} {x y : A} → ok x ≡ ok y → x ≡ y
value_of p = cc

-- The transaction `tx` has appended `ops` behind `before`, on the store and counter given.
pub record IsOpen (c : Codec) (i n : ℕ) (store : Store) (before ops : List WalEntry) (db : Database)
    (tx : Transaction) : Type 0 where
  pub same_id : tx.id ≡ i
  pub is_active : tx.state ≡ active
  pub buffered : tx.entries ≡ ops
  pub same_store : db.store ≡ store
  pub same_counter : db.next_tx_id ≡ n
  pub own : AllOf i ops
  pub changes : NoMarker ops
  pub holds : Holds c db.wal (before ++ ops)
  pub writable : All (CanEncode c) (before ++ ops)

module _ (c : Codec) (i n : ℕ) (store : Store) (before : List WalEntry) where
  append_op-IsOpen :
      (world : World) (op : WalEntry) (ops : List WalEntry) (db : Database) (tx : Transaction)
      → IsOpen c i n store before ops db tx
      → IsCalm world
      → CanWrite c (stamp i world.timestamp op)
      → (a : Appended c world tx op db)
      → IsOpen c i n store before
          (ops ++ a.entry ∷ [])
          (append_op c world tx op db).0
          (add_entry tx a.entry)
  unfolding add_entry
  append_op-IsOpen world op ops db tx o calm can a =
      let is_own = stamp-own tx.id world.timestamp op a.entry a.is_stamped in
      let appended =
        append-Holds c world.while_waiting a.entry db.wal (before ++ ops) calm.waiting o.holds
          o.writable a.queued in
      rw (a.returned) record {
        same_id = o.same_id;
        is_active = o.is_active;
        buffered = ap (λ l. l ++ a.entry ∷ []) o.buffered;
        same_store = o.same_store;
        same_counter = o.same_counter;
        own = All-append (λ e. tx_id_of e ≡ i) ops (a.entry ∷ []) o.own (is_own.0 ∙ o.same_id, tt);
        changes = All-append (λ e. is_marker e ≡ false) ops (a.entry ∷ []) o.changes (is_own.1, tt);
        holds = rw (sym (append_assoc before ops (a.entry ∷ []))) appended;
        writable = rw (sym (append_assoc before ops (a.entry ∷ []))) (
            All-append (CanEncode c) (before ++ ops) (a.entry ∷ []) o.writable (
              CanWrite-some c (stamp i world.timestamp op) a.entry
                  (ap (λ k. stamp k world.timestamp op) (sym o.same_id) ∙ a.is_stamped) can,
              tt,
            ));
      }

  -- When all operations have been appended, the transaction is still open.
  pub append_ops-IsOpen :
      (steps : List (World × WalEntry)) (ops : List WalEntry) (db : Database) (tx tx' : Transaction)
      → IsOpen c i n store before ops db tx
      → All (λ (s : World × WalEntry). IsCalm s.0) steps
      → AreWritable c i steps
      → (append_ops c steps tx db).1 ≡ ok tx'
      → (all_ops : List WalEntry) × IsOpen c i n store before all_ops
          (append_ops c steps tx db).0
          tx'
  unfolding append_ops pure
  append_ops-IsOpen [] ops db tx tx' o calm can h = (ops, rw (sym (value_of h)) o)
  append_ops-IsOpen ((world, op) ∷ steps) ops db tx tx' o calm can h =
      let chain = Chain-ok (append_op c world tx op) (append_ops c steps) db tx' h in
      let a = append_op-Appended c world tx chain.value op db (ap (λ p. p.1) chain.first) in
      let value : add_entry tx a.entry ≡ chain.value =
        value_of (sym (ap (λ p. p.1) a.returned) ∙ ap (λ p. p.1) chain.first) in
      let next : IsOpen c i n store before (ops ++ a.entry ∷ []) chain.mid chain.value =
        transport2 (ap (λ p. p.0) chain.first) value
          (append_op-IsOpen world op ops db tx o calm.0 can.0 a) in
      let (all_ops, done) =
        append_ops-IsOpen steps (ops ++ a.entry ∷ []) chain.mid chain.value tx' next calm.1 can.1
          (sym (ap (λ p. p.1) chain.rest) ∙ h) in
      (all_ops, rw (chain.rest) done)
    where
      transport2 :
          {ops' : List WalEntry} {d d' : Database} {t t' : Transaction}
          → d ≡ d'
          → t ≡ t'
          → IsOpen c i n store before ops' d t
          → IsOpen c i n store before ops' d' t'
      transport2 p q x = rw (sym p, sym q) x
