-- ===== src/Recovery/Serial.antt =====
-- The store after recovery: the committed transactions, one after the other.
use mathlib.Core.List.{foldl, foldl-append}
use async_wal_db.Prelude.{
  ℕ, ◌^◌, ◌<◌, ◌≡◌, refl, sym, ap, ◌∙◌, arith, List, [], ◌∷◌, ◌++◌, Option, none, some, not, filter,
  Bool-cases, inl, inr, nat_beq_iff, nat_eq, Option-cases, length,
}
use async_wal_db.Prelude.Map
use async_wal_db.Prelude.Map.{Map, NoDup, NoDup-insert, get-insert}
use async_wal_db.Prelude.Sort.{sort, has, Distinct, Ascending, has-sort, Ascending-sort}
use async_wal_db.Entry.{Bytes, WalEntry, is_marker}
use async_wal_db.Store.{Store, redo, redo_all}
use async_wal_db.Frame.{Codec, IsLawful, eof}
use async_wal_db.Frame.RoundTrip.{reader}
use async_wal_db.Wal.Encode.{Encodes}
use async_wal_db.Recovery.{
  RecoveryAction, Scan, empty_scan, or_default, or_insert, track, observe, is_commit, committed_ids,
  replay, Memory, finish, recover_with_validation,
}
use async_wal_db.Recovery.Tracking.{
  entries_of, get-tx_entries, final_marker, says_commit, or_else, get-tx_actions,
}
use async_wal_db.Recovery.Crash.{recover-log}

-- The changes that transaction `i` makes, in the order of the log.
abbrev pub changes_of : ℕ → List WalEntry → List WalEntry
changes_of i es = filter (λ e. not (is_marker e)) (entries_of i es)

-- The changes of the transactions `ids`, one transaction after the other.
abbrev pub serial : List ℕ → List WalEntry → List WalEntry
serial [] es = []
serial (i ∷ is) es = changes_of i es ++ serial is es

NoDup-or_insert :
    (i : ℕ) (a : RecoveryAction) (m : Map ℕ RecoveryAction) → NoDup m → NoDup (or_insert i a m)
unfolding or_insert
NoDup-or_insert i a m h = elim (Option-cases (Map.get i m)) [
  | inl absent ↦ rw (absent, or_insert) (NoDup-insert i a m h)
  | inr (b, present) ↦ rw (present, or_insert) h
]

NoDup-track : (e : WalEntry) (m : Map ℕ RecoveryAction) → NoDup m → NoDup (track e m)
unfolding track
NoDup-track (WalEntry.commit i t) m h = NoDup-insert i RecoveryAction.commit m h
NoDup-track (WalEntry.abort i t) m h = NoDup-insert i RecoveryAction.rollback m h
NoDup-track (WalEntry.insert i t k v) m h = NoDup-or_insert i RecoveryAction.incomplete m h
NoDup-track (WalEntry.update i t k o v) m h = NoDup-or_insert i RecoveryAction.incomplete m h
NoDup-track (WalEntry.delete i t k o) m h = NoDup-or_insert i RecoveryAction.incomplete m h

NoDup-tx_actions :
    (es : List WalEntry) (s : Scan) → NoDup s.tx_actions → NoDup (foldl observe s es).tx_actions
unfolding observe
NoDup-tx_actions [] s h = h
NoDup-tx_actions (e ∷ es) s h = NoDup-tx_actions es (observe s e) (NoDup-track e s.tx_actions h)

has-committed_ids :
    (i : ℕ) (m : Map ℕ RecoveryAction)
    → NoDup m
    → has i (committed_ids m) ≡ says_commit (Map.get i m)
unfolding committed_ids Map.get
has-committed_ids i [] h = refl
has-committed_ids i ((j, a) ∷ m) h = ground (arith, has-committed_ids i m h.1, h.0, nat_beq_iff j i)

Distinct-committed_ids : (m : Map ℕ RecoveryAction) → NoDup m → Distinct (committed_ids m)
unfolding committed_ids
Distinct-committed_ids [] h = tt
Distinct-committed_ids ((j, a) ∷ m) h = elim (Bool-cases (is_commit a)) [
  | inl listed ↦
      rw listed (has-committed_ids j m h.1 ∙ ap says_commit h.0, Distinct-committed_ids m h.1)
  | inr passed ↦ rw passed (Distinct-committed_ids m h.1)
]

replay_step :
    (tx_entries : Map ℕ (List WalEntry)) (store : Store) (i : ℕ) (is : List ℕ)
    → replay tx_entries store (i ∷ is)
      ≡ replay tx_entries (redo_all store (or_default (Map.get i tx_entries))) is
unfolding replay redo_all
replay_step tx_entries store i is = elim (Option-cases (Map.get i tx_entries)) [
  | inl absent ↦ rw (absent, replay)
  | inr (es, present) ↦ rw (present, replay)
]

pub replay-serial :
    (es : List WalEntry) (tx_entries : Map ℕ (List WalEntry)) (store : Store) (ids : List ℕ)
    → ((i : ℕ) → or_default (Map.get i tx_entries) ≡ entries_of i es)
    → replay tx_entries store ids ≡ foldl redo store (serial ids es)
unfolding replay redo_all
replay-serial es tx_entries store [] h = refl
replay-serial es tx_entries store (i ∷ is) h =
    replay_step tx_entries store i is
    ∙ ap (λ l. replay tx_entries (redo_all store l) is) (h i)
    ∙ replay-serial es tx_entries (redo_all store (entries_of i es)) is h
    ∙ sym (foldl-append redo store (changes_of i es) (serial is es))

finish-store :
    (m : Memory) (s : Scan)
    → (finish m s).0.store ≡ replay s.tx_entries m.store (sort (committed_ids s.tx_actions))
unfolding finish
finish-store m s = ground arith

or_else-none : (o : Option RecoveryAction) → or_else o none ≡ o
or_else-none none = refl
or_else-none (some a) = refl

-- The transactions whose last marker in `es` is a commit, in ascending order.
pub record Committed (es : List WalEntry) (ids : List ℕ) : Type 0 where
  pub ascending : Ascending ids
  pub exact : (i : ℕ) → has i ids ≡ says_commit (final_marker i es)

-- Recovery of an intact log leaves the store that results from redoing the changes of exactly the
-- transactions whose last marker is a commit, whole and one after the other by their numbers, each
-- in the order of the log.
pub recover-serial :
    {c : Codec}
    → IsLawful c
    → (m : Memory) (es : List WalEntry) (bytes : Bytes) → Encodes c es bytes
    → length bytes < 2 ^ 64
    → (ids : List ℕ) × Committed es ids
      × ((recover_with_validation c (some (reader bytes eof)) m).0.store
          ≡ foldl redo m.store (serial ids es))
unfolding Map.get
recover-serial {c} l m es bytes h small = (
  sort (committed_ids s.tx_actions),
  record {
    ascending =
        Ascending-sort (committed_ids s.tx_actions) (Distinct-committed_ids s.tx_actions distinct);
    exact = λ i.
        has-sort i (committed_ids s.tx_actions)
        ∙ has-committed_ids i s.tx_actions distinct
        ∙ get-tx_actions i es empty_scan
        ∙ ap says_commit (or_else-none (final_marker i es));
  },
  ap (λ (x : Memory). x.store) (recover-log l m es bytes h small)
      ∙ finish-store m s
      ∙ replay-serial es s.tx_entries m.store _ (λ i. get-tx_entries i es empty_scan),
)
  where
    s : Scan
    s = foldl observe empty_scan es

    distinct : NoDup s.tx_actions
    distinct = NoDup-tx_actions es empty_scan tt
