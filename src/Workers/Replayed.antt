-- ===== src/Workers/Replayed.antt =====
-- The keys that the replay of a log sets, where every entry is an insert or the marker of a commit.
use async_wal_db.Prelude.{
  ℕ, ◌≡◌, refl, ap, ◌∙◌, arith, List, [], ◌∷◌, Bool, true, false, not, filter, any_of-append,
  nat_beq, nat_beq_iff, Bool-cases, inl, inr, All, All-append, bytes_eq,
}
use async_wal_db.Prelude.Sort.{has}
use async_wal_db.Entry.{Bytes, WalEntry, tx_id_of, is_marker}
use async_wal_db.Recovery.Tracking.{entries_of}
use async_wal_db.Recovery.Serial.{changes_of, serial}
use async_wal_db.Workers.Values.{Gives, sets, sets_any}
use async_wal_db.Workers.Logged.{IsPlain, or_true, or_later}

-- The replay of a log sets no other keys than its entries do.
sets_any-filter :
    (k : Bytes) (p : WalEntry → Bool) (es : List WalEntry)
    → sets_any k es ≡ false
    → sets_any k (filter p es) ≡ false
sets_any-filter k p [] h = refl
sets_any-filter k p (e ∷ es) h = elim (Bool-cases (p e)) [
  | inl kept ↦ rw kept (ground (arith, sets_any-filter k p es, h))
  | inr gone ↦ rw gone (sets_any-filter k p es (ground arith))
]

pub serial_sets_none :
    (k : Bytes) (ids : List ℕ) (es : List WalEntry)
    → sets_any k es ≡ false
    → sets_any k (serial ids es) ≡ false
serial_sets_none k [] es h = refl
serial_sets_none k (i ∷ ids) es h =
    any_of-append (sets k) (changes_of i es) (serial ids es)
    ∙ ground (
      arith,
      sets_any-filter k (λ e. not (is_marker e)) (entries_of i es)
          (sets_any-filter k (λ e. nat_beq (tx_id_of e) i) es h),
      serial_sets_none k ids es h,
    )

-- It sets the keys that a committed transaction sets.
pub serial_sets :
    (k : Bytes) (i : ℕ) (ids : List ℕ) (es : List WalEntry)
    → has i ids ≡ true
    → sets_any k (changes_of i es) ≡ true
    → sets_any k (serial ids es) ≡ true
serial_sets k i [] es m h = absurd (cc)
serial_sets k i (j ∷ ids) es m h =
    any_of-append (sets k) (changes_of j es) (serial ids es) ∙ elim (Bool-cases (nat_beq j i)) [
      | inl same ↦
          or_true _ _ (ap (λ x. sets_any k (changes_of x es)) ((nat_beq_iff j i).0 same) ∙ h)
      | inr other ↦
          let later : has i ids ≡ true = ground arith in
          or_later _ _ (serial_sets k i ids es later h)
    ]

changes-Gives :
    (value : Bytes → Bytes) (es : List WalEntry)
    → All (IsPlain value) es
    → All (Gives value) (filter (λ e. not (is_marker e)) es)
changes-Gives value [] h = tt
changes-Gives value (WalEntry.insert i t k v ∷ es) h = (h.0, changes-Gives value es h.1)
changes-Gives value (WalEntry.commit i t ∷ es) h = changes-Gives value es h.1
changes-Gives value (WalEntry.update i t k o v ∷ es) h = absurd (cc (h.0))
changes-Gives value (WalEntry.delete i t k o ∷ es) h = absurd (cc (h.0))
changes-Gives value (WalEntry.abort i t ∷ es) h = absurd (cc (h.0))

All-filter :
    (value : Bytes → Bytes) (p : WalEntry → Bool) (es : List WalEntry)
    → All (IsPlain value) es
    → All (IsPlain value) (filter p es)
All-filter value p [] h = tt
All-filter value p (e ∷ es) h = elim (Bool-cases (p e)) [
  | inl kept ↦ rw kept (h.0, All-filter value p es h.1)
  | inr gone ↦ rw gone (All-filter value p es h.1)
]

pub serial-Gives :
    (value : Bytes → Bytes) (ids : List ℕ) (es : List WalEntry)
    → All (IsPlain value) es
    → All (Gives value) (serial ids es)
serial-Gives value [] es h = tt
serial-Gives value (i ∷ ids) es h =
    All-append (Gives value) (changes_of i es) (serial ids es)
      (changes-Gives value (entries_of i es) (All-filter value (λ e. nat_beq (tx_id_of e) i) es h))
      (serial-Gives value ids es h)
