-- ===== src/Workers/Logged.antt =====
-- The keys that the log gives their values to, while tasks append to it.
use async_wal_db.Prelude.{
  ℕ, ◌≡◌, refl, sym, ap, ◌∙◌, arith, List, [], ◌∷◌, ◌++◌, Bool, true, false, ◌||◌, none, some,
  any_of, any_of-append, nat_beq, nat_beq_iff, Bool-cases, inl, inr, ◌⊎◌, All, bytes_eq,
}
use async_wal_db.Entry.{Bytes, WalEntry, tx_id_of}
use async_wal_db.Recovery.{RecoveryAction}
use async_wal_db.Recovery.Tracking.{marker_of, final_marker, says_commit}
use async_wal_db.Recovery.Serial.{changes_of}
use async_wal_db.Recovery.Extend.{final_marker-append, changes_of-append}
use async_wal_db.Workers.{Worker, idle, working}
use async_wal_db.Workers.Values.{Gives, sets, sets_any}

-- An insert of the value of its key, or the marker of a commit.
abbrev pub IsPlain : (Bytes → Bytes) → WalEntry → Type 0
IsPlain value (WalEntry.insert i t key v) = v ≡ value key
IsPlain value (WalEntry.commit i t) = Unit
IsPlain value e = false ≡ true

-- A transaction that the log commits sets the key.
pub record InLog (total : List WalEntry) (k : Bytes) : Type 0 where
  pub id : ℕ
  pub committed : says_commit (final_marker id total) ≡ true
  pub changed : sets_any k (changes_of id total) ≡ true

-- What the task has appended stands in the log under its number.
abbrev pub IsLogged : List WalEntry → Worker → Type 0
IsLogged total (idle jobs) = Unit
IsLogged total (working tx ops jobs) =
    (k : Bytes) → sets_any k tx.entries ≡ true → sets_any k (changes_of tx.id total) ≡ true

pub or_true : (a b : Bool) → a ≡ true → (a || b) ≡ true
or_true a b h = ground arith

sets_any-changes_of :
    (k : Bytes) (i : ℕ) (total more : List WalEntry)
    → sets_any k (changes_of i total) ≡ true
    → sets_any k (changes_of i (total ++ more)) ≡ true
sets_any-changes_of k i total more h =
    ap (sets_any k) (changes_of-append i total more)
    ∙ any_of-append (sets k) (changes_of i total) (changes_of i more)
    ∙ or_true _ _ h

pub or_later : (a b : Bool) → b ≡ true → (a || b) ≡ true
or_later a b h = ground arith

or_last : (a b : Bool) → b ≡ true → (a || (b || false)) ≡ true
or_last a b h = ground arith

module _ (value : Bytes → Bytes) where
  plain_marker :
      (i : ℕ) (es : List WalEntry)
      → All (IsPlain value) es
      → (final_marker i es ≡ none) ⊎ (final_marker i es ≡ some RecoveryAction.commit)
  unfolding final_marker
  plain_marker i [] h = inl refl
  plain_marker i (e ∷ es) h = elim (plain_marker i es h.1) [
    | inr some_commit ↦ inr (rw some_commit)
    | inl none_later ↦ rw none_later (own e h.0)
  ]
    where
      own :
          (e : WalEntry)
          → IsPlain value e
          → (marker_of i e ≡ none) ⊎ (marker_of i e ≡ some RecoveryAction.commit)
      own (WalEntry.insert j t k v) p = inl refl
      own (WalEntry.commit j t) p = elim (Bool-cases (nat_beq j i)) [
        | inl same ↦ inr (rw same)
        | inr other ↦ inl (rw other)
      ]
      own (WalEntry.update j t k o v) p = absurd (cc)
      own (WalEntry.delete j t k o) p = absurd (cc)
      own (WalEntry.abort j t) p = absurd (cc)

  -- What is appended behind keeps what the log says.
  pub InLog-append :
      (total more : List WalEntry) (k : Bytes)
      → All (IsPlain value) more
      → InLog total k
      → InLog (total ++ more) k
  InLog-append total more k p l = record {
    id = l.id;
    committed =
        ap says_commit (final_marker-append l.id total more) ∙ elim (plain_marker l.id more p) [
          | inl none_later ↦ rw none_later (l.committed)
          | inr some_commit ↦ rw some_commit
        ];
    changed = sets_any-changes_of k l.id total more l.changed;
  }

  pub IsLogged-append :
      (total more : List WalEntry) (w : Worker) → IsLogged total w → IsLogged (total ++ more) w
  IsLogged-append total more (idle jobs) h = tt
  IsLogged-append total more (working tx ops jobs) h =
      λ k e. sets_any-changes_of k tx.id total more (h k e)

-- The entry of the task's own.
pub sets_any-own :
    (value : Bytes → Bytes) (k : Bytes) (total : List WalEntry) (e : WalEntry)
    → Gives value e
    → sets k e ≡ true
    → sets_any k (changes_of (tx_id_of e) (total ++ e ∷ [])) ≡ true
sets_any-own value k total (WalEntry.insert i t key v) g h =
    let e = WalEntry.insert i t key v in
    ap (sets_any k) (changes_of-append i total (e ∷ []))
    ∙ any_of-append (sets k) (changes_of i total) (changes_of i (e ∷ []))
    ∙ rw ((nat_beq_iff i i).1 refl) (or_last (any_of (sets k) (changes_of i total)) _ h)
sets_any-own value k total (WalEntry.update i t key o v) g h = absurd (cc)
sets_any-own value k total (WalEntry.delete i t key o) g h = absurd (cc)
sets_any-own value k total (WalEntry.commit i t) g h = absurd (cc)
sets_any-own value k total (WalEntry.abort i t) g h = absurd (cc)

-- What a task has appended, with one entry more.
pub IsLogged-own :
    (value : Bytes → Bytes) (id : ℕ) (entries total : List WalEntry) (e : WalEntry)
    → Gives value e
    → tx_id_of e ≡ id
    → ((k : Bytes) → sets_any k entries ≡ true → sets_any k (changes_of id total) ≡ true)
    → (k : Bytes) → sets_any k (entries ++ e ∷ []) ≡ true
    → sets_any k (changes_of id (total ++ e ∷ [])) ≡ true
IsLogged-own value id entries total e g own logged k h = elim (Bool-cases (sets_any k entries)) [
  | inl before ↦ sets_any-changes_of k id total (e ∷ []) (logged k before)
  | inr not_before ↦
      ap (λ i. sets_any k (changes_of i (total ++ e ∷ []))) (sym own)
      ∙ sets_any-own value k total e g
          (ground (arith, any_of-append (sets k) entries (e ∷ []), h, not_before))
]

pub Gives-IsPlain : (value : Bytes → Bytes) (e : WalEntry) → Gives value e → IsPlain value e
Gives-IsPlain value (WalEntry.insert i t key v) g = g
Gives-IsPlain value (WalEntry.update i t key o v) g = absurd (cc)
Gives-IsPlain value (WalEntry.delete i t key o) g = absurd (cc)
Gives-IsPlain value (WalEntry.commit i t) g = tt
Gives-IsPlain value (WalEntry.abort i t) g = absurd (cc)

pub commit-InLog :
    (k : Bytes) (total : List WalEntry) (id now : ℕ)
    → sets_any k (changes_of id total) ≡ true
    → InLog (total ++ WalEntry.commit id now ∷ []) k
unfolding final_marker
commit-InLog k total id now h = record {
  id = id;
  committed =
      ap says_commit (final_marker-append id total (WalEntry.commit id now ∷ []))
      ∙ rw ((nat_beq_iff id id).1 refl);
  changed = sets_any-changes_of k id total (WalEntry.commit id now ∷ []) h;
}
