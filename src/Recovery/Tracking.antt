-- ===== src/Recovery/Tracking.antt =====
-- What the reading loop of recovery knows of each transaction when it ends.
use mathlib.Core.List.{foldl, append_assoc, append-nil}
use async_wal_db.Prelude.{
  ℕ, ◌≡◌, refl, sym, ap, ◌∙◌, arith, List, [], ◌∷◌, ◌++◌, Option, none, some, false, Bool, filter,
  filter-append, if◌then◌else◌, Bool-cases, inl, inr, nat_beq, nat_beq_iff, nat_eq, Option-cases,
}
use async_wal_db.Prelude.Map
use async_wal_db.Prelude.Map.{Map, get-insert}
use async_wal_db.Entry.{WalEntry, tx_id_of}
use async_wal_db.Recovery.{
  RecoveryAction, Scan, or_default, push_entry, or_insert, track, observe, is_commit,
}

-- The entries of one transaction, in the order of the log.
abbrev pub entries_of : ℕ → List WalEntry → List WalEntry
entries_of i es = filter (λ e. nat_beq (tx_id_of e) i) es

get-push_entry :
    (i : ℕ) (e : WalEntry) (m : Map ℕ (List WalEntry))
    → or_default (Map.get i (push_entry (tx_id_of e) e m))
      ≡ or_default (Map.get i m) ++ entries_of i (e ∷ [])
unfolding push_entry
get-push_entry i e m = elim (Bool-cases (nat_beq (tx_id_of e) i)) [
  | inl same ↦ rw (get-insert (tx_id_of e) i _ m, same, (nat_beq_iff (tx_id_of e) i).0 same)
  | inr other ↦ rw (get-insert (tx_id_of e) i _ m, other) (sym (append-nil _))
]

-- `tx_entries` holds each transaction's entries, in the order of the log.
pub get-tx_entries :
    (i : ℕ) (es : List WalEntry) (s : Scan)
    → or_default (Map.get i (foldl observe s es).tx_entries)
      ≡ or_default (Map.get i s.tx_entries) ++ entries_of i es
unfolding observe
get-tx_entries i [] s = sym (append-nil _)
get-tx_entries i (e ∷ es) s =
    get-tx_entries i es (observe s e)
    ∙ ap (λ l. l ++ entries_of i es) (get-push_entry i e s.tx_entries)
    ∙ append_assoc (or_default (Map.get i s.tx_entries)) (entries_of i (e ∷ [])) (entries_of i es)
    ∙ ap (λ l. or_default (Map.get i s.tx_entries) ++ l)
        (sym (filter-append (λ x. nat_beq (tx_id_of x) i) (e ∷ []) es))

-- The marker that an entry is for transaction `i`.
abbrev pub marker_of : ℕ → WalEntry → Option RecoveryAction
marker_of i (WalEntry.commit j t) = if nat_beq j i then some RecoveryAction.commit else none
marker_of i (WalEntry.abort j t) = if nat_beq j i then some RecoveryAction.rollback else none
marker_of i _ = none

abbrev pub or_else : Option RecoveryAction → Option RecoveryAction → Option RecoveryAction
or_else none b = b
or_else (some a) b = some a

-- The last marker of transaction `i` in the log.
unfoldable pub final_marker : ℕ → List WalEntry → Option RecoveryAction
final_marker i [] = none
final_marker i (e ∷ es) = or_else (final_marker i es) (marker_of i e)

abbrev pub says_commit : Option RecoveryAction → Bool
says_commit none = false
says_commit (some a) = is_commit a

get-or_insert :
    (i j : ℕ) (m : Map ℕ RecoveryAction)
    → says_commit (Map.get i (or_insert j RecoveryAction.incomplete m)) ≡ says_commit (Map.get i m)
unfolding or_insert
get-or_insert i j m = elim (Option-cases (Map.get j m)) [
  | inl absent ↦
      rw (absent, or_insert)
        (ground (arith, get-insert j i RecoveryAction.incomplete m, nat_beq_iff j i))
  | inr (a, present) ↦ rw (present, or_insert)
]

get-track :
    (i : ℕ) (e : WalEntry) (m : Map ℕ RecoveryAction)
    → says_commit (Map.get i (track e m)) ≡ says_commit (or_else (marker_of i e) (Map.get i m))
unfolding track
get-track i (WalEntry.commit j t) m = ground (arith, get-insert j i RecoveryAction.commit m)
get-track i (WalEntry.abort j t) m = ground (arith, get-insert j i RecoveryAction.rollback m)
get-track i (WalEntry.insert j t k v) m = get-or_insert i j m
get-track i (WalEntry.update j t k o v) m = get-or_insert i j m
get-track i (WalEntry.delete j t k o) m = get-or_insert i j m

-- `tx_actions` has `Commit` for the transactions whose last marker is a commit.
pub get-tx_actions :
    (i : ℕ) (es : List WalEntry) (s : Scan)
    → says_commit (Map.get i (foldl observe s es).tx_actions)
      ≡ says_commit (or_else (final_marker i es) (Map.get i s.tx_actions))
unfolding observe final_marker
get-tx_actions i [] s = refl
get-tx_actions i (e ∷ es) s = get-tx_actions i es (observe s e) ∙ step (final_marker i es)
  where
    step :
        (o : Option RecoveryAction)
        → says_commit (or_else o (Map.get i (track e s.tx_actions)))
          ≡ says_commit (or_else (or_else o (marker_of i e)) (Map.get i s.tx_actions))
    step none = get-track i e s.tx_actions
    step (some a) = refl
