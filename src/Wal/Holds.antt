-- ===== src/Wal/Holds.antt =====
-- What the log file and the queue hold together, under appends and drains that do not fail.
use async_wal_db.Prelude.{
  ◌^◌, ◌<◌, ◌≡◌, refl, sym, ap, ◌∙◌, arith, List, [], ◌∷◌, ◌++◌, Bool, true, false, Option, none,
  some, leb, length-append, Bool-cases, inl, inr, All,
}
use mathlib.Core.List.{append-nil, append_assoc}
use async_wal_db.Errors.{ok}
use async_wal_db.Entry.{Bytes, WalEntry}
use async_wal_db.Frame.{Codec, frame}
use async_wal_db.Wal.{
  WalStorage, Disk, fine, log_file, encode_batch, drain_and_flush, background, pushed, append,
  flush,
}
use async_wal_db.Wal.Encode.{Encodes, cons-Encodes, Encodes-append}
use async_wal_db.Wal.Durable.{IsSettled, Drained, IsFine, drain_and_flush_fine, flush_fine}

abbrev pub is_some : Option Bytes → Bool
is_some none = false
is_some (some b) = true

-- The entry can be serialized.
abbrev pub CanEncode : Codec → WalEntry → Type 0
CanEncode c e = is_some (frame c e) ≡ true

-- `total` has been appended: first the entries of the log file, then those that are pending.
pub record Holds (c : Codec) (w : WalStorage) (total : List WalEntry) : Type 0 where
  pub logged : List WalEntry
  pub encoded : Encodes c logged (log_file w)
  pub split : logged ++ w.pending ≡ total
  pub settled : IsSettled w
  pub word : w.max_queue_size < 2 ^ 64

pub Encodes-All :
    (c : Codec) (es : List WalEntry) → All (CanEncode c) es → (b : Bytes) × Encodes c es b
unfolding encode_batch
Encodes-All c [] h = ([], refl)
Encodes-All c (e ∷ es) h =
    let (rest, later) = Encodes-All c es h.1 in first (frame c e) refl h.0 rest later
  where
    first :
        (o : Option Bytes)
        → frame c e ≡ o
        → is_some (frame c e) ≡ true
        → (rest : Bytes) → Encodes c es rest
        → (b : Bytes) × Encodes c (e ∷ es) b
    first none q p rest later = absurd (cc)
    first (some f) q p rest later = (f ++ rest, cons-Encodes c e es f rest q later)

All-of_append : (P : WalEntry → Type 0) (xs ys : List WalEntry) → All P (xs ++ ys) → All P ys
All-of_append P [] ys h = h
All-of_append P (x ∷ xs) ys h = All-of_append P xs ys h.1

-- The pending entries can be encoded if all can.
pub pending-Encodes :
    (c : Codec) (w : WalStorage) (total : List WalEntry)
    → Holds c w total
    → All (CanEncode c) total
    → (b : Bytes) × Encodes c w.pending b
pending-Encodes c w total h all =
    Encodes-All c w.pending (All-of_append (CanEncode c) h.logged w.pending (rw (h.split) all))

pub Drained-Holds :
    (c : Codec) (w w' : WalStorage) (total : List WalEntry) (b : Bytes)
    → Holds c w total
    → Encodes c w.pending b
    → Drained w w' b
    → Holds c w' total
Drained-Holds c w w' total b h e d = record {
  logged = h.logged ++ w.pending;
  encoded = rw (d.log) (Encodes-append c h.logged w.pending (log_file w) b h.encoded e);
  split = rw (d.emptied) (append-nil (h.logged ++ w.pending) ∙ h.split);
  settled = d.settled;
  word = rw (d.same_size) h.word;
}

module _ (c : Codec) where
  drain-Holds :
      (disk : Disk) (w : WalStorage) (total : List WalEntry)
      → disk.outcome ≡ fine
      → Holds c w total
      → All (CanEncode c) total
      → Holds c (drain_and_flush c disk w).0 total
  drain-Holds disk w total f h all =
      let (b, e) = pending-Encodes c w total h all in
      Drained-Holds c w (drain_and_flush c disk w).0 total b h e
        (drain_and_flush_fine c disk w b f h.settled e).1

  pub background-Holds :
      (b : Option Disk) (w : WalStorage) (total : List WalEntry)
      → IsFine b
      → Holds c w total
      → All (CanEncode c) total
      → Holds c (background c b w) total
  unfolding background
  background-Holds none w total f h all = h
  background-Holds (some disk) w total f h all = drain-Holds disk w total f h all

  pushed-Holds :
      (e : WalEntry) (w : WalStorage) (total : List WalEntry)
      → w.pending_count < w.max_queue_size
      → Holds c w total
      → Holds c (pushed w e) (total ++ e ∷ [])
  unfolding pushed
  pushed-Holds e w total space h = record {
    logged = h.logged;
    encoded = h.encoded;
    split = sym (append_assoc h.logged w.pending (e ∷ [])) ∙ ap (λ l. l ++ e ∷ []) h.split;
    settled = record {
      unbuffered = h.settled.unbuffered;
      synced = h.settled.synced;
      exact = omega (arith, h.settled.exact, length-append w.pending (e ∷ []));
      word = omega (arith, h.word);
    };
    word = h.word;
  }

  -- An `append` that returns has put its entry behind the others.
  pub append-Holds :
      (bs : List (Option Disk)) (e : WalEntry) (w : WalStorage) (total : List WalEntry)
      → All IsFine bs
      → Holds c w total
      → All (CanEncode c) total
      → (append c bs e w).1 ≡ ok tt
      → Holds c (append c bs e w).0 (total ++ e ∷ [])
  unfolding append
  append-Holds [] e w total f h all r = elim (Bool-cases (leb w.max_queue_size w.pending_count)) [
    | inl full ↦ absurd (cc (full, r))
    | inr space ↦ rw space (pushed-Holds e w total (ground arith) h)
  ]
  append-Holds (b ∷ bs) e w total f h all r =
      elim (Bool-cases (leb w.max_queue_size w.pending_count)) [
        | inl full ↦ rw full (
            append-Holds bs e (background c b w) total f.1 (background-Holds b w total f.0 h all)
              all (rw full at r))
        | inr space ↦ rw space (pushed-Holds e w total (ground arith) h)
      ]

  -- A `flush` succeeds, and leaves everything in the log file.
  pub flush-Holds :
      (bs : List (Option Disk)) (disk : Disk) (w : WalStorage) (total : List WalEntry)
      → All IsFine bs
      → disk.outcome ≡ fine
      → Holds c w total
      → All (CanEncode c) total
      → ((flush c bs disk w).1 ≡ ok tt)
        × ((flush c bs disk w).0.pending ≡ [])
        × Holds c (flush c bs disk w).0 total
  flush-Holds bs disk w total f fd h all =
      let (b, e) = pending-Encodes c w total h all in
      let (done, drained) = flush_fine c bs disk w b f fd h.settled e in
      (done, drained.emptied, Drained-Holds c w (flush c bs disk w).0 total b h e drained)
