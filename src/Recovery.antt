-- ===== src/Recovery.antt =====
-- `recover_with_validation` of src/database.rs: the reading loop over the log, the classification
-- of the transactions, and the replay of the committed ones.
pub mod Reading
pub mod Crash
pub mod Tracking
pub mod Serial
pub mod Extend
pub mod Block
pub mod Further
pub mod Counts
pub mod Counter
pub mod Damaged
pub mod Damage
pub mod Torn
pub mod Tests
use mathlib.Core.List.{foldl}
use async_wal_db.Prelude.{
  ℕ, zero, suc, ◌+◌, ◌%◌, ◌^◌, List, [], ◌∷◌, ◌++◌, Bool, true, false, ◌||◌, Option, none, some,
  max, ltb, if◌then◌else◌, length, nat_eq,
}
use async_wal_db.Prelude.Map
use async_wal_db.Prelude.Map.{Map}
use async_wal_db.Prelude.Sort
use async_wal_db.Errors.{Result, ok, err, panic, unfinished, io, open_wal, validation, codes}
use async_wal_db.Entry.{Bytes, WalEntry, tx_id_of}
use async_wal_db.Header
use async_wal_db.Frame.{
  Codec, Reader, Frame, header_eof, data_eof, read_error, too_long, invalid, undecodable, entry,
  read_frame,
}
use async_wal_db.Store.{Store, redo_all}

pub data RecoveryAction : Type 0 where
  commit rollback incomplete : RecoveryAction

pub record RecoveryStats : Type 0 where
  pub total_transactions : ℕ
  pub committed : ℕ
  pub aborted : ℕ
  pub incomplete : ℕ
  pub partial_writes : ℕ
  pub checksum_failures : ℕ

-- `#[derive(Default)]`
abbrev pub no_stats : RecoveryStats
no_stats = record {
  total_transactions = 0;
  committed = 0;
  aborted = 0;
  incomplete = 0;
  partial_writes = 0;
  checksum_failures = 0;
}

-- The local variables of the reading loop but for the reader and the offset.
pub record Scan : Type 0 where
  pub stats : RecoveryStats
  pub tx_entries : Map ℕ (List WalEntry)
  pub tx_actions : Map ℕ RecoveryAction

abbrev pub empty_scan : Scan
empty_scan = record { stats = no_stats; tx_entries = []; tx_actions = [] }

abbrev pub or_default : Option (List WalEntry) → List WalEntry
or_default none = []
or_default (some es) = es

-- `tx_entries.entry(tx_id).or_default().push(entry.clone())`
unfoldable pub push_entry : ℕ → WalEntry → Map ℕ (List WalEntry) → Map ℕ (List WalEntry)
push_entry tx_id e m = Map.insert tx_id (or_default (Map.get tx_id m) ++ e ∷ []) m

-- `entry(tx_id).or_insert(action)`
unfoldable pub or_insert : ℕ → RecoveryAction → Map ℕ RecoveryAction → Map ℕ RecoveryAction
or_insert tx_id action m = elim (Map.get tx_id m) [ none ↦ Map.insert tx_id action m | some a ↦ m ]

-- The transaction's status after one more of its entries.
unfoldable pub track : WalEntry → Map ℕ RecoveryAction → Map ℕ RecoveryAction
unfolding or_insert
track (WalEntry.commit tx_id t) m = Map.insert tx_id commit m
track (WalEntry.abort tx_id t) m = Map.insert tx_id rollback m
track (WalEntry.insert tx_id t k v) m = or_insert tx_id incomplete m
track (WalEntry.update tx_id t k o v) m = or_insert tx_id incomplete m
track (WalEntry.delete tx_id t k o) m = or_insert tx_id incomplete m

-- What one round of the loop does with an entry.
unfoldable pub observe : Scan → WalEntry → Scan
unfolding push_entry track
observe s e = record s {
  tx_entries = push_entry (tx_id_of e) e s.tx_entries;
  tx_actions = track e s.tx_actions;
}

pub count_partial_write : Scan → Scan
count_partial_write s = record s {
  stats = record s.stats { partial_writes = s.stats.partial_writes + 1 };
}

pub count_checksum_failure : Scan → Scan
count_checksum_failure s = record s {
  stats = record s.stats { checksum_failures = s.stats.checksum_failures + 1 };
}

-- The ways out of the loop; `offset` is `entry_start_offset`.
unfoldable pub stop : Frame → ℕ → Scan → Result Scan
unfolding count_partial_write count_checksum_failure
stop header_eof offset s = ok (if ltb 0 offset then count_partial_write s else s)
stop data_eof offset s = ok (count_partial_write s)
stop read_error offset s = err io
stop too_long offset s = panic
stop (invalid e) offset s = ok (count_checksum_failure s)
stop undecodable offset s = ok (count_partial_write s)
stop (entry len e r) offset s = unfinished

-- Phase 1, with a bound on the number of rounds. `byte_offset` is a `u64`.
unfoldable pub scan : Codec → ℕ → Reader → ℕ → Scan → Result Scan
unfolding stop observe
scan c zero r offset s = unfinished
scan c (suc rounds) r offset s = elim (read_frame c r) [
  | entry len e r' ↦ scan c rounds r' ((offset + Header.size + len) % 2 ^ 64) (observe s e)
  | other ↦ stop other offset s
]

count_action : RecoveryStats → ℕ × RecoveryAction → RecoveryStats
count_action stats (tx_id, commit) = record stats { committed = stats.committed + 1 }
count_action stats (tx_id, rollback) = record stats { aborted = stats.aborted + 1 }
count_action stats (tx_id, incomplete) = record stats { incomplete = stats.incomplete + 1 }

-- Phase 2
unfoldable pub classify : Scan → RecoveryStats
unfolding count_action
classify s =
    foldl count_action (record s.stats { total_transactions = length s.tx_entries }) s.tx_actions

-- `*action == RecoveryAction::Commit`
abbrev pub is_commit : RecoveryAction → Bool
is_commit commit = true
is_commit rollback = false
is_commit incomplete = false

-- The `filter` and `map` of phase 3
unfoldable pub committed_ids : Map ℕ RecoveryAction → List ℕ
committed_ids [] = []
committed_ids ((tx_id, action) ∷ m) =
    let rest = committed_ids m in if is_commit action then tx_id ∷ rest else rest

-- The outer loop of phase 3, and of the replay in `checkpoint`
unfoldable pub replay : Map ℕ (List WalEntry) → Store → List ℕ → Store
replay tx_entries store [] = store
replay tx_entries store (tx_id ∷ ids) = elim (Map.get tx_id tx_entries) [
  | none ↦ replay tx_entries store ids
  | some entries ↦ replay tx_entries (redo_all store entries) ids
]

-- `is_empty` on a key
abbrev pub is_empty : Bytes → Bool
is_empty [] = true
is_empty (b ∷ bs) = false

-- Phase 4
pub has_empty_key : Store → Bool
has_empty_key [] = false
has_empty_key ((key, value) ∷ m) = is_empty key || has_empty_key m

-- `keys().max()` and `fetch_max`: phase 5. `max_tx_id + 1` is a `u64`, which wraps around in a
-- release build.
max_key : Map ℕ (List WalEntry) → Option ℕ
max_key [] = none
max_key ((k, v) ∷ m) = elim (max_key m) [ none ↦ some k | some j ↦ some (max k j) ]

bump : Option ℕ → ℕ → ℕ
bump none next_tx_id = next_tx_id
bump (some max_tx_id) next_tx_id = max next_tx_id ((max_tx_id + 1) % 2 ^ 64)

unfoldable pub restore_counter : Map ℕ (List WalEntry) → ℕ → ℕ
unfolding max_key bump
restore_counter tx_entries next_tx_id = bump (max_key tx_entries) next_tx_id

-- The part of the program's state that recovery writes: the store, and the static `NEXT_TX_ID`.
pub record Memory : Type 0 where
  pub store : Store
  pub next_tx_id : ℕ

-- Phases 2 to 5, after the loop. A refused validation leaves the store as it was written.
unfoldable pub finish : Memory → Scan → Memory × Result RecoveryStats
unfolding classify committed_ids replay has_empty_key restore_counter Sort.sort
finish m s =
    let store = replay s.tx_entries m.store (Sort.sort (committed_ids s.tx_actions)) in
    if has_empty_key store
    then (record m { store = store }, err (validation (codes "Invalid empty key after recovery")))
    else (
      record { store = store; next_tx_id = restore_counter s.tx_entries m.next_tx_id },
      ok (classify s),
    )

pub after_scan : Memory → Result Scan → Memory × Result RecoveryStats
unfolding finish
after_scan m (ok s) = finish m s
after_scan m (err e) = (m, err e)
after_scan m panic = (m, panic)
after_scan m unfinished = (m, unfinished)

-- `File::open`: `none` if it fails. The loop takes at most one round for each byte and one more.
unfoldable pub recover_with_validation :
    Codec → Option Reader → Memory → Memory × Result RecoveryStats
unfolding scan after_scan
recover_with_validation c none m = (m, err open_wal)
recover_with_validation c (some r) m = after_scan m (scan c (length r.bytes + 1) r 0 empty_scan)

-- `recover`: `?` and `Ok` give the result as it is.
unfoldable pub recover : Codec → Option Reader → Memory → Memory × Result RecoveryStats
unfolding recover_with_validation
recover c file m = recover_with_validation c file m
