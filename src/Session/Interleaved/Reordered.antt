-- ===== src/Session/Interleaved/Reordered.antt =====
-- Two open transactions of which the one with the higher number commits first.
use mathlib.Core.List.{foldl, foldl-append, append-nil}
use async_wal_db.Prelude.{
  ℕ, ◌^◌, ◌<◌, ◌≡◌, ◌≢◌, refl, sym, ap, ◌∙◌, arith, List, [], ◌∷◌, ◌++◌, Option, none, some, All,
  All-append, length, nat_beq, nat_beq_iff, Bool-cases, inl, inr, ◌⊎◌,
}
use async_wal_db.Errors.{ok}
use async_wal_db.Entry.{WalEntry, tx_id_of}
use async_wal_db.Frame.{Codec, IsLawful}
use async_wal_db.Store.{redo}
use async_wal_db.Wal.{log_file}
use async_wal_db.Wal.Holds.{CanEncode}
use async_wal_db.Recovery.{RecoveryAction}
use async_wal_db.Recovery.Tracking.{final_marker, says_commit, marker_of, or_else}
use async_wal_db.Recovery.Serial.{changes_of, serial, Committed}
use async_wal_db.Recovery.Extend.{serial-append, final_marker-append, marker_of-other}
use async_wal_db.Recovery.Further.{serial-marker, final_marker-further, Committed-last}
use async_wal_db.Database.{Database}
use async_wal_db.Transaction
use async_wal_db.Transaction.{Transaction, World}
use async_wal_db.Session.Open.{IsCalm}
use async_wal_db.Session.Marker.{commit-Marked}
use async_wal_db.Session.Consistent.{Consistent}
use async_wal_db.Session.Closing.{recovered, Consistent-recovered}
use async_wal_db.Session.Interleaved.{Work}
use async_wal_db.Session.Interleaved.Open.{IsRunning}
use async_wal_db.Session.Interleaved.Kept.{IsKept}
use async_wal_db.Session.Interleaved.Endings.{commits-IsKept}

-- Two markers of different transactions, in either order.
module _ (e f : WalEntry) (other : tx_id_of e ≢ tx_id_of f) (total : List WalEntry) where
  final_marker-swap :
      (k : ℕ)
      → final_marker k (total ++ e ∷ [] ++ f ∷ []) ≡ final_marker k (total ++ f ∷ [] ++ e ∷ [])
  unfolding final_marker
  final_marker-swap k =
      final_marker-append k (total ++ e ∷ []) (f ∷ [])
      ∙ ap (or_else (marker_of k f)) (final_marker-append k total (e ∷ []))
      ∙ commute (marker_of k f) (marker_of k e) (final_marker k total) one_only
      ∙ ap (or_else (marker_of k e)) (sym (final_marker-append k total (f ∷ [])))
      ∙ sym (final_marker-append k (total ++ f ∷ []) (e ∷ []))
    where
      one_only : (marker_of k f ≡ none) ⊎ (marker_of k e ≡ none)
      one_only = elim (Bool-cases (nat_beq (tx_id_of e) k)) [
        | inl same ↦ inl (
            marker_of-other (tx_id_of f) k f
              (λ p. other ((nat_beq_iff (tx_id_of e) k).0 same ∙ sym p)) refl)
        | inr apart ↦ inr (
            marker_of-other (tx_id_of e) k e (λ p. cc (apart, (nat_beq_iff (tx_id_of e) k).1 p))
              refl)
      ]

      commute :
          (x y z : Option RecoveryAction)
          → (x ≡ none) ⊎ (y ≡ none)
          → or_else x (or_else y z) ≡ or_else y (or_else x z)
      commute none none z h = refl
      commute none (some y) z h = refl
      commute (some x) none z h = refl
      commute (some x) (some y) z (inl p) = absurd (cc (p))
      commute (some x) (some y) z (inr p) = absurd (cc (p))

All-lower : (n m : ℕ) (ids : List ℕ) → n < m → All (λ j. j < n) ids → All (λ j. j < m) ids
All-lower n m [] lt h = tt
All-lower n m (j ∷ ids) lt h = (omega (arith, lt, h.0), All-lower n m ids lt h.1)

-- Two open transactions, `b` with the higher number, and the log after `b` and then `a` has
-- committed: recovery takes `a` first.
module _ (total : List WalEntry) (ids : List ℕ) (a b : Transaction) (t u : ℕ) where
  both_markers : List WalEntry
  both_markers = total ++ WalEntry.commit b.id u ∷ [] ++ WalEntry.commit a.id t ∷ []

  swapped-Committed :
      Committed total ids
      → a.id < b.id
      → All (λ j. j < a.id) ids
      → final_marker a.id total ≡ none
      → final_marker b.id total ≡ none
      → Committed both_markers (ids ++ a.id ∷ [] ++ b.id ∷ [])
  unfolding both_markers
  swapped-Committed d lt lower a_open b_open =
      let ma = WalEntry.commit a.id t in
      let mb = WalEntry.commit b.id u in
      let one =
        Committed-last a.id ma refl total ids d lower a_open
          (rw ((nat_beq_iff a.id a.id).1 refl) refl) in
      let two =
        Committed-last b.id mb refl (total ++ ma ∷ []) (ids ++ a.id ∷ []) one
          (All-append (λ j. j < b.id) ids (a.id ∷ []) (All-lower a.id b.id ids lt lower) (lt, tt))
          (final_marker-further a.id ma refl total b.id (λ p. omega (arith, p, lt)) ∙ b_open)
          (rw ((nat_beq_iff b.id b.id).1 refl) refl) in
      record {
        ascending = two.ascending;
        exact = λ k.
            two.exact k
            ∙ ap says_commit (final_marker-swap ma mb (λ p. omega (arith, p, lt)) total k);
      }

  swapped-serial :
      a.entries ≡ changes_of a.id total
      → b.entries ≡ changes_of b.id total
      → serial (ids ++ a.id ∷ [] ++ b.id ∷ []) both_markers
        ≡ serial ids total ++ a.entries ++ b.entries
  unfolding both_markers
  swapped-serial of_a of_b =
      let ma = WalEntry.commit a.id t in
      let mb = WalEntry.commit b.id u in
      let all = ids ++ a.id ∷ [] ++ b.id ∷ [] in
      serial-marker a.id ma refl (total ++ mb ∷ []) refl all
      ∙ serial-marker b.id mb refl total refl all
      ∙ serial-append (ids ++ a.id ∷ []) (b.id ∷ []) total
      ∙ ap (λ l. l ++ (changes_of b.id total ++ [])) (serial-append ids (a.id ∷ []) total)
      ∙ rw
          (
            append-nil (changes_of a.id total),
            append-nil (changes_of b.id total),
            sym of_a,
            sym of_b,
          )
          refl

-- Of two open transactions, the one with the higher number commits first, and then the other, both
-- without an error on disks that do not fail. The store has the changes of the lower number last,
-- but a new process that recovers the log has those of the higher number last: where both write a
-- key, the two differ.
pub commits_reordered :
    {c : Codec}
    → IsLawful c
    → (total : List WalEntry) (s : Work) (a b : Transaction) (others : List Transaction)
      (v w : World) (n : ℕ)
    → IsKept c total s
    → s.running ≡ b ∷ a ∷ others
    → a.id < b.id
    → All (λ j. j < a.id) s.committed
    → IsCalm v
    → IsCalm w
    → CanEncode c (WalEntry.commit b.id v.timestamp)
    → CanEncode c (WalEntry.commit a.id w.timestamp)
    → (Transaction.commit c v b s.db).1 ≡ ok tt
    → (Transaction.commit c w a (Transaction.commit c v b s.db).0).1 ≡ ok tt
    → length (log_file (Transaction.commit c w a (Transaction.commit c v b s.db).0).0.wal) < 2 ^ 64
    → let last = (Transaction.commit c w a (Transaction.commit c v b s.db).0).0 in
      (last.store ≡ foldl redo (foldl redo s.db.store b.entries) a.entries)
      × ((recovered c n last.wal).store ≡ foldl redo (foldl redo s.db.store a.entries) b.entries)
unfolding both_markers
commits_reordered {c} l total s a b others v w n k now lt lower calm_v calm_w can_b can_a ok_b ok_a
      small =
    let mb = WalEntry.commit b.id v.timestamp in
    let ma = WalEntry.commit a.id w.timestamp in
    let running : All (IsRunning s.db.next_tx_id total) (b ∷ a ∷ others) = rw now at k.running in
    let of_b = running.0 in
    let of_a = running.1.0 in
    let (marked_b, done_b, applied_b) =
      commit-Marked c v total s.db calm_v b of_b.is_active k.holds k.writable can_b ok_b in
    let k1 =
      commits-IsKept c total s b (a ∷ others) v now calm_v can_b
        (All-lower a.id b.id s.committed lt lower) ok_b k in
    let mid = (Transaction.commit c v b s.db).0 in
    let (marked_a, done_a, applied_a) =
      commit-Marked c w (total ++ mb ∷ []) mid calm_w a of_a.is_active k1.holds k1.writable can_a
        ok_a in
    let ids = s.committed ++ a.id ∷ [] ++ b.id ∷ [] in
    let log = both_markers total s.committed a b w.timestamp v.timestamp in
    let replay : Database = record marked_a { store = foldl redo [] (serial ids log) } in
    let same : Consistent c log replay = record {
      holds = done_a.holds;
      writable = All-append (CanEncode c) (total ++ mb ∷ []) (ma ∷ []) k1.writable (can_a, tt);
      ids = ids;
      committed =
          swapped-Committed total s.committed a b w.timestamp v.timestamp k.committed lt lower
            of_a.unended of_b.unended;
      replayed = refl;
      below = rw (done_a.same_counter) (
          All-append (λ x. tx_id_of x < mid.next_tx_id) (total ++ mb ∷ []) (ma ∷ []) k1.below
            (k1.running.0.below, tt));
    } in
    (
      ap (λ (d : Database). d.store) applied_a
          ∙ ap (λ (d : Database). foldl redo d.store a.entries) applied_b,
      ap (λ (d : Database). (recovered c n d.wal).store) applied_a
          ∙ Consistent-recovered l log replay n same done_a.emptied (rw applied_a at small)
          ∙ ap (foldl redo []) (
              swapped-serial total s.committed a b w.timestamp v.timestamp of_a.buffered
                of_b.buffered)
          ∙ foldl-append redo [] (serial s.committed total ++ a.entries) b.entries
          ∙ ap (λ t. foldl redo t b.entries)
              (foldl-append redo [] (serial s.committed total) a.entries
                ∙ ap (λ t. foldl redo t a.entries) (sym k.replayed)),
    )
