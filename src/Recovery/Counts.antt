-- ===== src/Recovery/Counts.antt =====
-- The statistics that recovery returns.
use mathlib.Core.List.{foldl}
use async_wal_db.Prelude.{
  ℕ, suc, ◌+◌, ◌^◌, ◌≤◌, ◌<◌, ◌≡◌, refl, sym, ap, ◌∙◌, arith, List, [], ◌∷◌, some, Option-cases,
  inl, inr, length, nat_eq,
}
use async_wal_db.Prelude.Map
use async_wal_db.Prelude.Map.{Map, keys, keys-insert, keys-insert_of_some}
use async_wal_db.Errors.{Result, ok, err, panic, unfinished}
use async_wal_db.Entry.{WalEntry, tx_id_of}
use async_wal_db.Frame.{Codec, Reader, Frame, header_eof}
use async_wal_db.Recovery.{
  RecoveryAction, RecoveryStats, Scan, empty_scan, no_stats, push_entry, or_insert, track, observe,
  stop, count_action, classify, Memory, finish, after_scan, recover_with_validation,
  count_partial_write, count_checksum_failure,
}
use async_wal_db.Recovery.Reading.{read_all, recover-Reads}

-- Both maps have the same keys, and nothing is counted yet.
record IsFresh (s : Scan) : Type 0 where
  same_keys : keys s.tx_entries ≡ keys s.tx_actions
  uncounted : s.stats ≡ no_stats

keys-or_insert :
    (i : ℕ) (v : List WalEntry) (a : RecoveryAction) (m : Map ℕ (List WalEntry))
    (n : Map ℕ RecoveryAction)
    → keys m ≡ keys n
    → keys (Map.insert i v m) ≡ keys (or_insert i a n)
unfolding or_insert
keys-or_insert i v a m n h = elim (Option-cases (Map.get i n)) [
  | inl absent ↦ rw (absent, or_insert) (keys-insert i v a m n h)
  | inr (b, present) ↦
      rw (present, or_insert) (keys-insert i v b m n h ∙ keys-insert_of_some i b b n present)
]

keys-track :
    (e : WalEntry) (v : List WalEntry) (m : Map ℕ (List WalEntry)) (n : Map ℕ RecoveryAction)
    → keys m ≡ keys n
    → keys (Map.insert (tx_id_of e) v m) ≡ keys (track e n)
unfolding track
keys-track (WalEntry.commit i t) v m n h = keys-insert i v RecoveryAction.commit m n h
keys-track (WalEntry.abort i t) v m n h = keys-insert i v RecoveryAction.rollback m n h
keys-track (WalEntry.insert i t k w) v m n h = keys-or_insert i v RecoveryAction.incomplete m n h
keys-track (WalEntry.update i t k o w) v m n h = keys-or_insert i v RecoveryAction.incomplete m n h
keys-track (WalEntry.delete i t k o) v m n h = keys-or_insert i v RecoveryAction.incomplete m n h

observe-IsFresh : (es : List WalEntry) (s : Scan) → IsFresh s → IsFresh (foldl observe s es)
unfolding observe push_entry
observe-IsFresh [] s h = h
observe-IsFresh (e ∷ es) s h = observe-IsFresh es (observe s e) (record {
  same_keys = keys-track e _ s.tx_entries s.tx_actions h.same_keys;
  uncounted = h.uncounted;
})

-- Of the counts that `classify` makes, those of the three classes add up.
abbrev pub classes : RecoveryStats → ℕ
classes st = st.committed + st.aborted + st.incomplete

classes-count :
    (m : Map ℕ RecoveryAction) (st : RecoveryStats)
    → classes (foldl count_action st m) ≡ classes st + length m
unfolding count_action
classes-count [] st = omega arith
classes-count ((i, RecoveryAction.commit) ∷ m) st =
    omega (arith, classes-count m (count_action st (i, RecoveryAction.commit)))
classes-count ((i, RecoveryAction.rollback) ∷ m) st =
    omega (arith, classes-count m (count_action st (i, RecoveryAction.rollback)))
classes-count ((i, RecoveryAction.incomplete) ∷ m) st =
    omega (arith, classes-count m (count_action st (i, RecoveryAction.incomplete)))

abbrev partials_of : RecoveryStats → ℕ
partials_of st = st.partial_writes

abbrev failures_of : RecoveryStats → ℕ
failures_of st = st.checksum_failures

-- `classify` leaves the other counts.
record Kept (st st' : RecoveryStats) : Type 0 where
  total : st'.total_transactions ≡ st.total_transactions
  partials : st'.partial_writes ≡ st.partial_writes
  failures : st'.checksum_failures ≡ st.checksum_failures

one-Kept : (i : ℕ) (a : RecoveryAction) (st : RecoveryStats) → Kept st (count_action st (i, a))
unfolding count_action
one-Kept i RecoveryAction.commit st = record { total = refl; partials = refl; failures = refl }
one-Kept i _ st = record { total = refl; partials = refl; failures = refl }

count-Kept : (m : Map ℕ RecoveryAction) (st : RecoveryStats) → Kept st (foldl count_action st m)
count-Kept [] st = record { total = refl; partials = refl; failures = refl }
count-Kept ((i, a) ∷ m) st =
    let one = one-Kept i a st in
    let rest = count-Kept m (count_action st (i, a)) in
    record {
      total = rest.total ∙ one.total;
      partials = rest.partials ∙ one.partials;
      failures = rest.failures ∙ one.failures;
    }

length-keys {ℓ} : {K V : Type ℓ} (m : Map K V) → length (keys m) ≡ length m
unfolding keys
length-keys [] = refl
length-keys ((k, v) ∷ m) = ap suc (length-keys m)

-- What recovery says of a scan whose two maps agree.
record Sound (s : Scan) (st : RecoveryStats) : Type 0 where
  classes_add_up : classes st ≡ st.total_transactions
  total : st.total_transactions ≡ length s.tx_entries
  partials : st.partial_writes ≡ s.stats.partial_writes
  failures : st.checksum_failures ≡ s.stats.checksum_failures

classify-Sound :
    (s : Scan) → keys s.tx_entries ≡ keys s.tx_actions → classes s.stats ≡ 0 → Sound s (classify s)
unfolding classify
classify-Sound s h zeros = record {
  classes_add_up = omega (
    arith,
    classes-count s.tx_actions start,
    kept.total,
    ap length h,
    length-keys s.tx_entries,
    length-keys s.tx_actions,
  );
  total = kept.total;
  partials = kept.partials;
  failures = kept.failures;
}
  where
    start : RecoveryStats
    start = record s.stats { total_transactions = length s.tx_entries }

    kept : Kept start (foldl count_action start s.tx_actions)
    kept = count-Kept s.tx_actions start

finish_stats :
    (m : Memory) (s : Scan) (st : RecoveryStats) → (finish m s).1 ≡ ok st → classify s ≡ st
unfolding finish
finish_stats m s st h = ground arith

-- The result has the counts of damage that the loop has made.
pub finish_damage :
    (m : Memory) (s : Scan) (st : RecoveryStats)
    → (finish m s).1 ≡ ok st
    → (st.partial_writes ≡ s.stats.partial_writes)
      × (st.checksum_failures ≡ s.stats.checksum_failures)
unfolding classify
finish_damage m s st h =
    (sym (ap partials_of same) ∙ kept.partials, sym (ap failures_of same) ∙ kept.failures)
  where
    same : classify s ≡ st
    same = finish_stats m s st h

    kept : Kept (record s.stats { total_transactions = length s.tx_entries }) (classify s)
    kept = count-Kept s.tx_actions (record s.stats { total_transactions = length s.tx_entries })

-- Entries are not counted as damage.
pub observe_uncounted : (es : List WalEntry) → (foldl observe empty_scan es).stats ≡ no_stats
unfolding keys
observe_uncounted es =
    (observe-IsFresh es empty_scan (record { same_keys = refl; uncounted = refl })).uncounted

-- The end of the loop counts at most one partial write or checksum failure.
pub record Ends (s s' : Scan) : Type 0 where
  pub same_entries : s'.tx_entries ≡ s.tx_entries
  pub same_actions : s'.tx_actions ≡ s.tx_actions
  pub same_classes : classes s'.stats ≡ classes s.stats
  pub one_at_most :
      s'.stats.partial_writes + s'.stats.checksum_failures
      ≤ s.stats.partial_writes + s.stats.checksum_failures + 1

pub stop-Ends : (f : Frame) (n : ℕ) (s s' : Scan) → stop f n s ≡ ok s' → Ends s s'
unfolding stop count_partial_write count_checksum_failure
stop-Ends header_eof n s s' h = ground arith
stop-Ends _ n s s' h = ground arith

pub after_scan_ok :
    (m : Memory) (x : Result Scan) (st : RecoveryStats)
    → (after_scan m x).1 ≡ ok st
    → (s : Scan) × (x ≡ ok s) × (classify s ≡ st)
unfolding after_scan
after_scan_ok m (ok s) st h = (s, refl, finish_stats m s st h)
after_scan_ok m (err e) st h = absurd (cc)
after_scan_ok m panic st h = absurd (cc)
after_scan_ok m unfinished st h = absurd (cc)

-- Whenever recovery succeeds, on any log file, the counts of committed, aborted and incomplete
-- transactions add up to the total, and at most one torn or corrupt entry is counted.
pub recover_stats :
    (c : Codec) (r : Reader) (m : Memory) (st : RecoveryStats)
    → length r.bytes < 2 ^ 64
    → (recover_with_validation c (some r) m).1 ≡ ok st
    → (st.committed + st.aborted + st.incomplete ≡ st.total_transactions)
      × (st.partial_writes + st.checksum_failures ≤ 1)
unfolding keys
recover_stats c r m st small h = (
  ap classes (sym same)
      ∙ sound.classes_add_up
      ∙ ap (λ (x : RecoveryStats). x.total_transactions) same,
  omega (
    arith,
    ap partials_of same,
    ap failures_of same,
    sound.partials,
    sound.failures,
    ends.one_at_most,
    ap partials_of fresh.uncounted,
    ap failures_of fresh.uncounted,
  ),
)
  where
    seen : Scan
    seen = foldl observe empty_scan (read_all c r).es

    fresh : IsFresh seen
    fresh =
        observe-IsFresh (read_all c r).es empty_scan (record { same_keys = refl; uncounted = refl })

    run : (s : Scan) × (stop (read_all c r).f (read_all c r).n seen ≡ ok s) × (classify s ≡ st)
    run = after_scan_ok m _ st (rw (recover-Reads c (read_all c r).reads m small) at h)

    same : classify run.0 ≡ st
    same = run.2

    ends : Ends seen run.0
    ends = stop-Ends (read_all c r).f (read_all c r).n seen run.0 run.1

    sound : Sound run.0 (classify run.0)
    sound =
        classify-Sound run.0
          (ap keys ends.same_entries ∙ fresh.same_keys ∙ sym (ap keys ends.same_actions))
          (ends.same_classes ∙ ap classes fresh.uncounted)
