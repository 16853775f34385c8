-- ===== src/Frame/Sample.antt =====
-- A codec that meets the laws of `Codec`: the layout of `bincode` for `WalEntry` (numbers of fixed
-- width, the lowest byte first; a `u32` for the variant; a `u64` length in front of texts and
-- vectors), and a sum of bytes for the hash. It serves the concrete runs.
pub mod Writes
use async_wal_db.Prelude.{
  ℕ, zero, suc, ◌+◌, ◌%◌, ◌^◌, ◌<◌, ◌≡◌, sym, ap, ◌∙◌, arith, [], ◌∷◌, ◌++◌, Bool, true, ◌&&◌,
  Option, none, some, ltb, leb, if◌then◌else◌, length, take, drop, All, length-append,
  take-append_length, drop-append_length, nat_eq,
}
use mathlib.Core.List.{append_assoc}
use async_wal_db.Entry.{Bytes, WalEntry}
use async_wal_db.Header.Bytes.{IsByte, le_bytes, of_le_bytes, length-le_bytes, of_le_bytes-le_bytes}
use async_wal_db.Frame.{Codec, IsLawful}

infixl 5 ◌>>=◌
abbrev ◌>>=◌ : {A B : Type 0} → Option A → (A → Option B) → Option B
none >>= f = none
some a >>= f = f a

-- `w` bytes as a number, or `n` bytes as they are, off the front.
number : ℕ → Bytes → Option (ℕ × Bytes)
number w b = if leb w (length b) then some (of_le_bytes (take w b), drop w b) else none

text : Bytes → Option (Bytes × Bytes)
text b = do (n, r) ← number 8 b; if leb n (length r) then some (take n r, drop n r) else none

put_text : Bytes → Bytes
put_text s = le_bytes 8 (length s) ++ s

-- The fields behind the numbers, by the variant.
texts : ℕ → ℕ → ℕ → Bytes → Option WalEntry
texts zero i t b = do (k, b1) ← text b; (v, b2) ← text b1; some (WalEntry.insert i t k v)
texts (suc zero) i t b = do
  (k, b1) ← text b
  (o, b2) ← text b1
  (n, b3) ← text b2
  some (WalEntry.update i t k o n)
texts (suc (suc zero)) i t b = do
  (k, b1) ← text b
  (o, b2) ← text b1
  some (WalEntry.delete i t k o)
texts (suc (suc (suc zero))) i t b = some (WalEntry.commit i t)
texts (suc (suc (suc (suc zero)))) i t b = some (WalEntry.abort i t)
texts (suc (suc (suc (suc (suc n))))) i t b = none

body : ℕ → Bytes → Option WalEntry
body variant b = do (i, b1) ← number 8 b; (t, b2) ← number 8 b1; texts variant i t b2

read : Bytes → Option WalEntry
read b = do (variant, r) ← number 4 b; body variant r

ids : ℕ → ℕ → ℕ → Bytes → Bytes
ids variant i t r = le_bytes 4 variant ++ (le_bytes 8 i ++ (le_bytes 8 t ++ r))

layout : WalEntry → Bytes
layout (WalEntry.insert i t k v) = ids 0 i t (put_text k ++ (put_text v ++ []))
layout (WalEntry.update i t k o n) = ids 1 i t (put_text k ++ (put_text o ++ (put_text n ++ [])))
layout (WalEntry.delete i t k o) = ids 2 i t (put_text k ++ (put_text o ++ []))
layout (WalEntry.commit i t) = ids 3 i t []
layout (WalEntry.abort i t) = ids 4 i t []

u64 : ℕ → Bool
u64 n = ltb n (2 ^ 64)

-- The fields fit their widths.
in_range : WalEntry → Bool
in_range (WalEntry.insert i t k v) = u64 i && (u64 t && (u64 (length k) && u64 (length v)))
in_range (WalEntry.update i t k o n) =
    u64 i && (u64 t && (u64 (length k) && (u64 (length o) && u64 (length n))))
in_range (WalEntry.delete i t k o) = u64 i && (u64 t && (u64 (length k) && u64 (length o)))
in_range (WalEntry.commit i t) = u64 i && u64 t
in_range (WalEntry.abort i t) = u64 i && u64 t

all_bytes : Bytes → Bool
all_bytes [] = true
all_bytes (b ∷ bs) = ltb b 256 && all_bytes bs

write : WalEntry → Option Bytes
write e =
    let b = layout e in
    if in_range e && (all_bytes b && ltb (length b) (2 ^ 63)) then some b else none

sum : Bytes → ℕ
sum [] = 0
sum (b ∷ bs) = b + sum bs

unfoldable pub sample : Codec
unfolding write read body texts number text put_text ids layout u64 in_range all_bytes sum le_bytes
    of_le_bytes
sample = record { serialize = write; deserialize = read; hash = λ b. sum b % 2 ^ 32 }

number-le_bytes : (w x : ℕ) (r : Bytes) → x < 256 ^ w → number w (le_bytes w x ++ r) ≡ some (x, r)
unfolding number
number-le_bytes w x r h = rw (
  enough,
  cut (λ n. take n (le_bytes w x ++ r)) ∙ take-append_length (le_bytes w x) r,
  cut (λ n. drop n (le_bytes w x ++ r)) ∙ drop-append_length (le_bytes w x) r,
  of_le_bytes-le_bytes w x h,
)
  where
    cut : (f : ℕ → Bytes) → f w ≡ f (length (le_bytes w x))
    cut f = ap f (sym (length-le_bytes w x))

    enough : leb w (length (le_bytes w x ++ r)) ≡ true
    enough = ground (arith, length-append (le_bytes w x) r, length-le_bytes w x)

number-u64 : (x : ℕ) (r : Bytes) → u64 x ≡ true → number 8 (le_bytes 8 x ++ r) ≡ some (x, r)
unfolding u64
number-u64 x r h = number-le_bytes 8 x r (ground arith)

text-put_text : (s r : Bytes) → u64 (length s) ≡ true → text (put_text s ++ r) ≡ some (s, r)
unfolding text put_text
text-put_text s r h = rw (
  append_assoc (le_bytes 8 (length s)) s r,
  number-u64 (length s) (s ++ r) h,
  ◌>>=◌,
  enough,
  take-append_length s r,
  drop-append_length s r,
)
  where
    enough : leb (length s) (length (s ++ r)) ≡ true
    enough = ground (arith, length-append s r)

body-ids :
    (variant i t : ℕ) (r : Bytes)
    → variant < 256 ^ 4
    → u64 i ≡ true
    → u64 t ≡ true
    → read (ids variant i t r) ≡ texts variant i t r
unfolding read body ids
body-ids variant i t r hv hi ht = rw (
  number-le_bytes 4 variant (le_bytes 8 i ++ (le_bytes 8 t ++ r)) hv,
  number-u64 i (le_bytes 8 t ++ r) hi,
  number-u64 t r ht,
)

read-layout : (e : WalEntry) → in_range e ≡ true → read (layout e) ≡ some e
unfolding layout in_range texts
read-layout (WalEntry.insert i t k v) h = rw (
  body-ids 0 i t (put_text k ++ (put_text v ++ [])) (omega arith) (ground arith) (ground arith),
  texts,
  text-put_text k (put_text v ++ []) (ground arith),
  text-put_text v [] (ground arith),
)
read-layout (WalEntry.update i t k o n) h = rw (
  body-ids 1 i t (put_text k ++ (put_text o ++ (put_text n ++ []))) (omega arith) (ground arith)
      (ground arith),
  texts,
  text-put_text k (put_text o ++ (put_text n ++ [])) (ground arith),
  text-put_text o (put_text n ++ []) (ground arith),
  text-put_text n [] (ground arith),
)
read-layout (WalEntry.delete i t k o) h = rw (
  body-ids 2 i t (put_text k ++ (put_text o ++ [])) (omega arith) (ground arith) (ground arith),
  texts,
  text-put_text k (put_text o ++ []) (ground arith),
  text-put_text o [] (ground arith),
)
read-layout (WalEntry.commit i t) h = body-ids 3 i t [] (omega arith) (ground arith) (ground arith)
read-layout (WalEntry.abort i t) h = body-ids 4 i t [] (omega arith) (ground arith) (ground arith)

All-all_bytes : (b : Bytes) → all_bytes b ≡ true → All IsByte b
unfolding all_bytes
All-all_bytes [] h = tt
All-all_bytes (b ∷ bs) h = (ground arith, All-all_bytes bs (ground arith))

write_inv :
    (e : WalEntry) (b : Bytes)
    → write e ≡ some b
    → (b ≡ layout e) × (in_range e ≡ true) × (all_bytes b ≡ true) × (length b < 2 ^ 63)
unfolding write
write_inv e b h = ground arith

pub sample-IsLawful : IsLawful sample
unfolding sample
sample-IsLawful = record {
  round_trip =
      λ e b h. let (same, range, bytes, small) = write_inv e b h in rw same (read-layout e range);
  writes_bytes =
      λ e b h. let (same, range, bytes, small) = write_inv e b h in All-all_bytes b bytes;
  fits = λ e b h. let (same, range, bytes, small) = write_inv e b h in small;
  hash_fits = λ b. omega arith;
}
