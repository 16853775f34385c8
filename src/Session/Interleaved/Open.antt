-- ===== src/Session/Interleaved/Open.antt =====
-- The open transactions, each beside the log that all of them share.
use async_wal_db.Prelude.{
  ℕ, ◌+◌, ◌≤◌, ◌<◌, ◌≡◌, ◌≢◌, refl, sym, ap, ◌∙◌, arith, List, [], ◌∷◌, ◌++◌, none, All, not,
  filter,
}
use async_wal_db.Entry.{WalEntry, tx_id_of, is_marker}
use async_wal_db.Recovery.Tracking.{final_marker}
use async_wal_db.Recovery.Serial.{changes_of}
use async_wal_db.Recovery.Extend.{AllBelow, entries_of-below, final_marker-below}
use async_wal_db.Recovery.Further.{changes_of-further, final_marker-further}
use async_wal_db.Transaction.{Transaction, active}

-- The buffer of the transaction is what the log has of it, its number is below `n`, and it has not
-- ended.
pub record IsRunning (n : ℕ) (total : List WalEntry) (tx : Transaction) : Type 0 where
  pub is_active : tx.state ≡ active
  pub buffered : tx.entries ≡ changes_of tx.id total
  pub unended : final_marker tx.id total ≡ none
  pub below : tx.id < n

-- No two of them have the same number.
abbrev pub AllApart : List Transaction → Type 0
AllApart [] = Unit
AllApart (tx ∷ txs) = All (λ (u : Transaction). tx.id ≢ u.id) txs × AllApart txs

pub higher-IsRunning :
    (n n' : ℕ) (total : List WalEntry) (txs : List Transaction)
    → n ≤ n'
    → All (IsRunning n total) txs
    → All (IsRunning n' total) txs
higher-IsRunning n n' total [] le h = tt
higher-IsRunning n n' total (tx ∷ txs) le h = (
  record {
    is_active = h.0.is_active;
    buffered = h.0.buffered;
    unended = h.0.unended;
    below = omega (arith, le, h.0.below);
  },
  higher-IsRunning n n' total txs le h.1,
)

-- An entry of another transaction changes nothing for them.
pub further-IsRunning :
    (i n : ℕ) (e : WalEntry) (total : List WalEntry) (txs : List Transaction)
    → tx_id_of e ≡ i
    → All (λ (u : Transaction). i ≢ u.id) txs
    → All (IsRunning n total) txs
    → All (IsRunning n (total ++ e ∷ [])) txs
further-IsRunning i n e total [] own apart h = tt
further-IsRunning i n e total (tx ∷ txs) own apart h = (
  record {
    is_active = h.0.is_active;
    buffered = h.0.buffered ∙ sym (changes_of-further i e own total tx.id apart.0);
    unended = final_marker-further i e own total tx.id apart.0 ∙ h.0.unended;
    below = h.0.below;
  },
  further-IsRunning i n e total txs own apart.1 h.1,
)

-- The number that comes next is that of no open transaction.
pub next-apart :
    (n : ℕ) (total : List WalEntry) (txs : List Transaction)
    → All (IsRunning n total) txs
    → All (λ (u : Transaction). n ≢ u.id) txs
next-apart n total [] h = tt
next-apart n total (tx ∷ txs) h = (λ e. omega (arith, e, h.0.below), next-apart n total txs h.1)

-- A transaction that begins.
pub begun-IsRunning :
    (n : ℕ) (total : List WalEntry)
    → AllBelow n total
    → IsRunning (n + 1) total (record { id = n; state = active; entries = [] })
begun-IsRunning n total h = record {
  is_active = refl;
  buffered = sym (ap (filter (λ e. not (is_marker e))) (entries_of-below n total h));
  unended = final_marker-below n n total (omega arith) h;
  below = omega arith;
}

module _ {ℓ} (P : Transaction → Type ℓ) where
  pub pick-All :
      (front : List Transaction) (tx : Transaction) (back : List Transaction)
      → All P (front ++ tx ∷ back)
      → All P (tx ∷ front ++ back)
  pick-All [] tx back h = h
  pick-All (x ∷ front) tx back h = let rest = pick-All front tx back h.1 in (rest.0, (h.0, rest.1))

pub pick-AllApart :
    (front : List Transaction) (tx : Transaction) (back : List Transaction)
    → AllApart (front ++ tx ∷ back)
    → AllApart (tx ∷ front ++ back)
pick-AllApart [] tx back h = h
pick-AllApart (x ∷ front) tx back h =
    let rest = pick-AllApart front tx back h.1 in
    let from_x = pick-All (λ (u : Transaction). x.id ≢ u.id) front tx back h.0 in
    ((λ e. from_x.0 (sym e), rest.0), (from_x.1, rest.1))
