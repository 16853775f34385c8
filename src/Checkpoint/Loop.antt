-- ===== src/Checkpoint/Loop.antt =====
-- What the reading loop of a checkpoint knows when it ends.
use mathlib.Core.List.{foldl}
use async_wal_db.Prelude.{
  ℕ, zero, suc, ◌<◌, ◌≡◌, refl, ap, ◌∙◌, arith, List, [], ◌∷◌, Bool, true, false, not, ◌||◌, ◌&&◌,
  Option, none, some, ltb, leb, nat_beq, nat_beq_iff, length, filter, Bool-cases, inl, inr, nat_eq,
}
use async_wal_db.Prelude.Sort.{has, Distinct}
use async_wal_db.Entry.{WalEntry, tx_id_of}
use async_wal_db.Frame.{Codec, Reader, Frame, entry, read_frame}
use async_wal_db.Frame.Size.{read_frame_takes}
use async_wal_db.Recovery.{RecoveryAction, Scan, observe, push_entry, is_commit}
use async_wal_db.Recovery.Reading.{Reads, stops, next, IsStop}
use async_wal_db.Recovery.Tracking.{marker_of, or_else, final_marker}
use async_wal_db.Checkpoint.{
  Progress, set_insert, set_remove, note_marker, visit, leave, read_since,
}

-- The entries of the transactions behind the last checkpoint.
abbrev pub newer : ℕ → List WalEntry → List WalEntry
newer last es = filter (λ e. ltb last (tx_id_of e)) es

module _ (c : Codec) (last : ℕ) where
  read_since-stop :
      (r : Reader) (f : Frame) (rounds : ℕ) (s : Progress)
      → IsStop f
      → read_frame c r ≡ f
      → read_since c last (suc rounds) r s ≡ leave f s
  unfolding read_since
  read_since-stop r (entry len x r') rounds s h e = elim h [ ]
  read_since-stop r f rounds s h e = rw (e, read_since)

  read_since-next :
      (r r' : Reader) (x : WalEntry) (len rounds : ℕ) (s : Progress)
      → read_frame c r ≡ entry len x r'
      → read_since c last (suc rounds) r s ≡ read_since c last rounds r' (visit last s x)
  unfolding read_since
  read_since-next r r' x len rounds s e = rw (e, read_since)

  -- The loop reads what recovery reads, and ends as `leave` says.
  pub read_since-Reads :
      {r : Reader} {es : List WalEntry} {n : ℕ} {f : Frame} (reads : Reads c r es n f) (rounds : ℕ)
      (s : Progress)
      → length r.bytes < rounds
      → read_since c last rounds r s ≡ leave f (foldl (visit last) s es)
  read_since-Reads reads zero s h = absurd (omega arith)
  read_since-Reads {r} {f = f} (stops ends e) (suc rounds) s h = read_since-stop r f rounds s ends e
  read_since-Reads {r} {f = f} (next {r' = r'} {e = x} {es = xs} {len = len} {n = n} e t reads)
        (suc rounds) s h =
      let taken = read_frame_takes c r r' len x e in
      read_since-next r r' x len rounds s e
      ∙ read_since-Reads {r = r'} {es = xs} {n = n} {f = f} reads rounds (visit last s x)
          (omega arith)

-- One round on an entry that is not skipped.
abbrev pub visit_new : Progress → WalEntry → Progress
visit_new s e = record {
  tx_entries = push_entry (tx_id_of e) e s.tx_entries;
  committed_txs = note_marker e s.committed_txs;
}

pub visit-newer :
    (last : ℕ) (es : List WalEntry) (s : Progress)
    → foldl (visit last) s es ≡ foldl visit_new s (newer last es)
unfolding visit
visit-newer last [] s = refl
visit-newer last (e ∷ es) s = elim (Bool-cases (ltb last (tx_id_of e))) [
  | inl new ↦
      let passed : leb (tx_id_of e) last ≡ false = ground arith in
      rw (new, passed) (visit-newer last es (visit_new s e))
  | inr old ↦
      let skipped : leb (tx_id_of e) last ≡ true = ground arith in
      rw (old, skipped) (visit-newer last es s)
]

-- The entries are gathered as recovery gathers them.
pub visit-tx_entries :
    (es : List WalEntry) (s : Progress) (t : Scan)
    → s.tx_entries ≡ t.tx_entries
    → (foldl visit_new s es).tx_entries ≡ (foldl observe t es).tx_entries
unfolding observe
visit-tx_entries [] s t h = h
visit-tx_entries (e ∷ es) s t h =
    visit-tx_entries es (visit_new s e) (observe t e) (ap (push_entry (tx_id_of e) e) h)

has-set_insert : (i j : ℕ) (ids : List ℕ) → has i (set_insert j ids) ≡ (nat_beq j i || has i ids)
unfolding set_insert
has-set_insert i j ids = elim (Bool-cases (has j ids)) [
  | inl old ↦ rw old (ground (arith, old, nat_beq_iff j i))
  | inr new ↦ rw new
]

has-set_remove :
    (i j : ℕ) (ids : List ℕ) → has i (set_remove j ids) ≡ (not (nat_beq j i) && has i ids)
unfolding set_remove
has-set_remove i j [] = ground arith
has-set_remove i j (k ∷ ids) =
    ground (arith, has-set_remove i j ids, nat_beq_iff k j, nat_beq_iff k i, nat_beq_iff j i)

Distinct-set_remove : (j : ℕ) (ids : List ℕ) → Distinct ids → Distinct (set_remove j ids)
unfolding set_remove
Distinct-set_remove j [] h = tt
Distinct-set_remove j (k ∷ ids) h = elim (Bool-cases (nat_beq k j)) [
  | inl same ↦ rw same (Distinct-set_remove j ids h.1)
  | inr other ↦
      rw other (has-set_remove k j ids ∙ ground (arith, h.0), Distinct-set_remove j ids h.1)
]

Distinct-note : (e : WalEntry) (ids : List ℕ) → Distinct ids → Distinct (note_marker e ids)
unfolding note_marker set_insert
Distinct-note (WalEntry.commit i t) ids h = elim (Bool-cases (has i ids)) [
  | inl old ↦ rw old h
  | inr new ↦ rw new (new, h)
]
Distinct-note (WalEntry.abort i t) ids h = Distinct-set_remove i ids h
Distinct-note (WalEntry.insert i t k v) ids h = h
Distinct-note (WalEntry.update i t k o v) ids h = h
Distinct-note (WalEntry.delete i t k o) ids h = h

pub visit-Distinct :
    (es : List WalEntry) (s : Progress)
    → Distinct s.committed_txs
    → Distinct (foldl visit_new s es).committed_txs
visit-Distinct [] s h = h
visit-Distinct (e ∷ es) s h = visit-Distinct es (visit_new s e) (Distinct-note e s.committed_txs h)

-- What a marker, if there is one, makes of a membership.
abbrev pub decide : Option RecoveryAction → Bool → Bool
decide none b = b
decide (some a) b = is_commit a

decide-note :
    (i : ℕ) (e : WalEntry) (ids : List ℕ)
    → has i (note_marker e ids) ≡ decide (marker_of i e) (has i ids)
unfolding note_marker
decide-note i (WalEntry.commit j t) ids = has-set_insert i j ids ∙ ground arith
decide-note i (WalEntry.abort j t) ids = has-set_remove i j ids ∙ ground arith
decide-note i (WalEntry.insert j t k v) ids = refl
decide-note i (WalEntry.update j t k o v) ids = refl
decide-note i (WalEntry.delete j t k o) ids = refl

decide-or_else :
    (a b : Option RecoveryAction) (x : Bool) → decide a (decide b x) ≡ decide (or_else a b) x
decide-or_else none b x = refl
decide-or_else (some y) b x = refl

-- The set has the transactions whose last marker is a commit.
pub has-committed_txs :
    (i : ℕ) (es : List WalEntry) (s : Progress)
    → has i (foldl visit_new s es).committed_txs
      ≡ decide (final_marker i es) (has i s.committed_txs)
unfolding final_marker
has-committed_txs i [] s = refl
has-committed_txs i (e ∷ es) s =
    has-committed_txs i es (visit_new s e)
    ∙ ap (decide (final_marker i es)) (decide-note i e s.committed_txs)
    ∙ decide-or_else (final_marker i es) (marker_of i e) (has i s.committed_txs)
