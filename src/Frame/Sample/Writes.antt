-- ===== src/Frame/Sample/Writes.antt =====
-- What the sample codec serializes: numbers of 64 bits, and texts of bytes that are not too long.
use async_wal_db.Prelude.{
  ℕ, zero, suc, ◌+◌, ◌/◌, ◌%◌, ◌^◌, ◌<◌, ◌≡◌, refl, arith, [], ◌∷◌, ◌++◌, true, some, ltb, length,
  All, length-append,
}
use async_wal_db.Entry.{Bytes, WalEntry}
use async_wal_db.Header.Bytes.{IsByte, le_bytes, length-le_bytes}
use async_wal_db.Frame.Sample.{sample, ids, put_text, layout, u64, in_range, all_bytes, write}

lt-ltb : (a b : ℕ) → a < b → ltb a b ≡ true
lt-ltb a b h = ground arith

All-all_bytes : (xs : Bytes) → All IsByte xs → all_bytes xs ≡ true
unfolding all_bytes
All-all_bytes [] h = refl
All-all_bytes (x ∷ xs) h = rw (lt-ltb x 256 h.0) (All-all_bytes xs h.1)

all_bytes-append :
    (xs ys : Bytes) → all_bytes xs ≡ true → all_bytes ys ≡ true → all_bytes (xs ++ ys) ≡ true
unfolding all_bytes
all_bytes-append [] ys p q = q
all_bytes-append (x ∷ xs) ys p q = ground (arith, all_bytes-append xs ys)

all_bytes-le_bytes : (w x : ℕ) → all_bytes (le_bytes w x) ≡ true
unfolding all_bytes le_bytes
all_bytes-le_bytes zero x = refl
all_bytes-le_bytes (suc w) x =
    let small : ltb (x % 256) 256 ≡ true = ground arith in rw small (all_bytes-le_bytes w (x / 256))

all_bytes-ids : (v i t : ℕ) (r : Bytes) → all_bytes r ≡ true → all_bytes (ids v i t r) ≡ true
unfolding ids
all_bytes-ids v i t r h = all_bytes-append (le_bytes 4 v) _ (all_bytes-le_bytes 4 v) (
    all_bytes-append (le_bytes 8 i) _ (all_bytes-le_bytes 8 i)
      (all_bytes-append (le_bytes 8 t) r (all_bytes-le_bytes 8 t) h))

length-ids : (v i t : ℕ) (r : Bytes) → length (ids v i t r) ≡ 20 + length r
unfolding ids
length-ids v i t r = omega (
  arith,
  length-append (le_bytes 4 v) (le_bytes 8 i ++ (le_bytes 8 t ++ r)),
  length-append (le_bytes 8 i) (le_bytes 8 t ++ r),
  length-append (le_bytes 8 t) r,
  length-le_bytes 4 v,
  length-le_bytes 8 i,
  length-le_bytes 8 t,
)

sample-layout :
    (e : WalEntry)
    → in_range e ≡ true
    → all_bytes (layout e) ≡ true
    → length (layout e) < 2 ^ 63
    → sample.serialize e ≡ some (layout e)
unfolding sample write
sample-layout e fits whole short = rw (fits, whole, lt-ltb (length (layout e)) (2 ^ 63) short)

below_word : (n : ℕ) → n < 2 ^ 64 → u64 n ≡ true
unfolding u64
below_word n h = lt-ltb n (2 ^ 64) h

pub sample-commit :
    (i t : ℕ)
    → i < 2 ^ 64
    → t < 2 ^ 64
    → (b : Bytes) × (sample.serialize (WalEntry.commit i t) ≡ some b)
unfolding layout in_range all_bytes
sample-commit i t hi ht =
    let fits : in_range (WalEntry.commit i t) ≡ true = rw (below_word i hi, below_word t ht) in
    (
      layout (WalEntry.commit i t),
      sample-layout (WalEntry.commit i t) fits (all_bytes-ids 3 i t [] refl)
          (omega (arith, length-ids 3 i t [])),
    )

all_bytes-put_text :
    (s r : Bytes) → all_bytes s ≡ true → all_bytes r ≡ true → all_bytes (put_text s ++ r) ≡ true
unfolding put_text
all_bytes-put_text s r h g =
    all_bytes-append (le_bytes 8 (length s) ++ s) r
      (all_bytes-append (le_bytes 8 (length s)) s (all_bytes-le_bytes 8 (length s)) h) g

length-put_text : (s r : Bytes) → length (put_text s ++ r) ≡ 8 + length s + length r
unfolding put_text
length-put_text s r = omega (
  arith,
  length-append (le_bytes 8 (length s) ++ s) r,
  length-append (le_bytes 8 (length s)) s,
  length-le_bytes 8 (length s),
)

pub sample-insert :
    (i t : ℕ) (k v : Bytes)
    → i < 2 ^ 64
    → t < 2 ^ 64
    → All IsByte k
    → All IsByte v
    → length k + length v < 2 ^ 62
    → (b : Bytes) × (sample.serialize (WalEntry.insert i t k v) ≡ some b)
unfolding layout in_range all_bytes
sample-insert i t k v hi ht bk bv short =
    let given_k = All-all_bytes k bk in
    let given_v = All-all_bytes v bv in
    let fits : in_range (WalEntry.insert i t k v) ≡ true = rw (
      below_word i hi,
      below_word t ht,
      below_word (length k) (omega arith),
      below_word (length v) (omega arith),
    ) in
    let values = put_text v ++ [] in
    (
      layout (WalEntry.insert i t k v),
      sample-layout (WalEntry.insert i t k v) fits
          (all_bytes-ids 0 i t (put_text k ++ values)
            (all_bytes-put_text k values given_k (all_bytes-put_text v [] given_v refl)))
          (omega (
            arith,
            length-ids 0 i t (put_text k ++ values),
            length-put_text k values,
            length-put_text v [],
          )),
    )
