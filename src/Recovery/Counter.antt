-- ===== src/Recovery/Counter.antt =====
-- The transaction counter after recovery: numbers found in the log are not given again.
use mathlib.Core.List.{foldl}
use async_wal_db.Prelude.{
  ℕ, ◌-◌, ◌^◌, ◌≤◌, ◌<◌, ◌≡◌, ◌≢◌, refl, sym, ap, ◌∙◌, arith, List, [], ◌∷◌, Option, none, some,
  Option-cases, inl, inr, length, nat_eq, Bool-cases, All, max, nat_beq, nat_beq_iff,
}
use async_wal_db.Prelude.Map
use async_wal_db.Prelude.Sort.{sort}
use async_wal_db.Prelude.Map.{Map, keys}
use async_wal_db.Errors.{Result, ok, err, panic, unfinished}
use async_wal_db.Entry.{WalEntry, tx_id_of}
use async_wal_db.Frame.{Codec, Reader, Frame}
use async_wal_db.Recovery.{
  RecoveryStats, Scan, empty_scan, push_entry, observe, or_default, max_key, bump, restore_counter,
  Memory, finish, after_scan, stop, replay, committed_ids, has_empty_key, recover_with_validation,
}
use async_wal_db.Recovery.Reading.{Reads, recover-Reads}
use async_wal_db.Recovery.Counts.{stop-Ends}
use async_wal_db.Recovery.Tracking.{entries_of, get-tx_entries}

max_key-ge :
    (i : ℕ) (v : List WalEntry) (m : Map ℕ (List WalEntry))
    → Map.get i m ≡ some v
    → (j : ℕ) × (max_key m ≡ some j) × (i ≤ j)
unfolding max_key Map.get
max_key-ge i v [] h = absurd (cc)
max_key-ge i v ((k, w) ∷ m) h = elim (Option-cases (max_key m)) [
  | inl empty ↦ elim (Option-cases (Map.get i m)) [
    | inl missing ↦ (k, rw (empty, max_key), ground (arith, nat_beq_iff k i))
    | inr (x, found) ↦ let (j, e, le) = max_key-ge i x m found in absurd (cc (e, empty))
  ]
  | inr (j, top) ↦ (
    max k j,
    rw (top, max_key),
    elim (Bool-cases (nat_beq k i)) [
      | inl same ↦ ground (arith, nat_beq_iff k i)
      | inr other ↦ let (j', e', le) = max_key-ge i v m (ground arith) in ground arith
    ],
  )
]

-- Every key of `tx_entries` is the number of an entry of the log.
All-keys-insert :
    (b k : ℕ) (v : List WalEntry) (m : Map ℕ (List WalEntry))
    → k < b
    → All (λ j. j < b) (keys m)
    → All (λ j. j < b) (keys (Map.insert k v m))
unfolding keys Map.insert
All-keys-insert b k v [] h hs = (h, tt)
All-keys-insert b k v ((j, w) ∷ m) h hs = elim (Bool-cases (nat_beq j k)) [
  | inl same ↦ rw same hs
  | inr other ↦ rw other (hs.0, All-keys-insert b k v m h hs.1)
]

All-keys-scan :
    (b : ℕ) (es : List WalEntry) (s : Scan)
    → All (λ e. tx_id_of e < b) es
    → All (λ j. j < b) (keys s.tx_entries)
    → All (λ j. j < b) (keys (foldl observe s es).tx_entries)
unfolding observe push_entry
All-keys-scan b [] s h hs = hs
All-keys-scan b (e ∷ es) s h hs =
    All-keys-scan b es (observe s e) h.1 (All-keys-insert b (tx_id_of e) _ s.tx_entries h.0 hs)

max_key-lt :
    (b j : ℕ) (m : Map ℕ (List WalEntry)) → All (λ i. i < b) (keys m) → max_key m ≡ some j → j < b
unfolding max_key keys
max_key-lt b j [] hs h = absurd (cc)
max_key-lt b j ((k, w) ∷ m) hs h = elim (Option-cases (max_key m)) [
  | inl empty ↦ ground (arith, hs.0)
  | inr (i, top) ↦ ground (arith, hs.0, max_key-lt b i m hs.1 top)
]

-- The counter that `restore_counter` leaves is above every key.
counter-gt :
    (i : ℕ) (v : List WalEntry) (m : Map ℕ (List WalEntry)) (n : ℕ)
    → Map.get i m ≡ some v
    → All (λ j. j < 2 ^ 64 - 1) (keys m)
    → i < restore_counter m n
unfolding restore_counter bump
counter-gt i v m n h hs =
    let (j, top, le) = max_key-ge i v m h in
    let below = max_key-lt (2 ^ 64 - 1) j m hs top in rw (top, bump) (omega arith)

finish_counter :
    (m : Memory) (s : Scan) (st : RecoveryStats)
    → (finish m s).1 ≡ ok st
    → (finish m s).0.next_tx_id ≡ restore_counter s.tx_entries m.next_tx_id
unfolding finish
finish_counter m s st h = ground arith

after_scan_counter :
    (m : Memory) (x : Result Scan) (st : RecoveryStats)
    → (after_scan m x).1 ≡ ok st
    → (s : Scan) × (x ≡ ok s)
      × ((after_scan m x).0.next_tx_id ≡ restore_counter s.tx_entries m.next_tx_id)
unfolding after_scan
after_scan_counter m (ok s) st h = (s, refl, finish_counter m s st h)
after_scan_counter m (err e) st h = absurd (cc)
after_scan_counter m panic st h = absurd (cc)
after_scan_counter m unfinished st h = absurd (cc)

-- If recovery succeeds, `NEXT_TX_ID` is above the number of every transaction of which it has read
-- an entry, unless the log holds the number 2 ^ 64 - 1: no number is given out twice.
pub recover_counter :
    {c : Codec} {r : Reader} {es : List WalEntry} {n : ℕ} {f : Frame} (reads : Reads c r es n f)
    (m : Memory) (st : RecoveryStats)
    → length r.bytes < 2 ^ 64
    → (recover_with_validation c (some r) m).1 ≡ ok st
    → All (λ e. tx_id_of e < 2 ^ 64 - 1) es
    → (i : ℕ) → entries_of i es ≢ []
    → i < (recover_with_validation c (some r) m).0.next_tx_id
unfolding Map.get keys
recover_counter {c} {r} {es} {n} {f} reads m st small h bound i occurs =
    rw (recover-Reads c reads m small) (
      let (s, stopped, counter) =
        after_scan_counter m (stop f n seen) st (rw (recover-Reads c reads m small) at h) in
      rw (counter, (stop-Ends f n seen s stopped).same_entries)
        (above (Map.get i seen.tx_entries) refl))
  where
    seen : Scan
    seen = foldl observe empty_scan es

    above :
        (o : Option (List WalEntry))
        → Map.get i seen.tx_entries ≡ o
        → i < restore_counter seen.tx_entries m.next_tx_id
    above none e = absurd (occurs (sym (get-tx_entries i es empty_scan) ∙ ap or_default e))
    above (some v) e =
        counter-gt i v seen.tx_entries m.next_tx_id e
          (All-keys-scan (2 ^ 64 - 1) es empty_scan bound tt)

restore_counter-word :
    (tx_entries : Map ℕ (List WalEntry)) (n : ℕ)
    → n < 2 ^ 64
    → restore_counter tx_entries n < 2 ^ 64
unfolding restore_counter bump
restore_counter-word tx_entries n h = elim (Option-cases (max_key tx_entries)) [
  | inl empty ↦ rw empty h
  | inr (top, some_key) ↦ rw some_key (omega arith)
]

-- The counter stays a `u64`.
pub finish-word :
    (m : Memory) (s : Scan) → m.next_tx_id < 2 ^ 64 → (finish m s).0.next_tx_id < 2 ^ 64
unfolding finish
finish-word m s h =
    elim (Bool-cases
      (has_empty_key (replay s.tx_entries m.store (sort (committed_ids s.tx_actions))))) [
        | inl refused ↦ rw refused h
        | inr accepted ↦ rw accepted (restore_counter-word s.tx_entries m.next_tx_id h)
      ]
