-- ===== src/Wal/Simulation/Images.antt =====
-- The bytes that a batch leaves in the file, and the entries that they stand for.
use async_wal_db.Prelude.{
  ℕ, zero, suc, ◌-◌, ◌≤◌, ◌<◌, ◌≡◌, refl, sym, ap, ◌∙◌, arith, List, [], ◌∷◌, ◌++◌, Bool, Option,
  none, some, leb, take, length, take-append_le, take-append_ge, Bool-cases, inl, inr,
}
use mathlib.Core.Path.{subst}
use mathlib.Core.List.{append-nil, append_assoc}
use async_wal_db.Entry.{Bytes, WalEntry}
use async_wal_db.Frame.{Codec, frame}
use async_wal_db.Wal.{encode_batch, join_frame}
use async_wal_db.Wal.Encode.{Encodes, Encodes-cons, nil-Encodes}
use async_wal_db.Wal.Simulation.{Image}

module _ (c : Codec) (base : Bytes) where
  -- An image with its lists written in another way.
  pub rewrite-Image :
      {l : ℕ} {es es' : List WalEntry} {b b' : Bytes}
      → es ≡ es'
      → b ≡ b'
      → Image c base l es b
      → Image c base l es' b'
  rewrite-Image {l = l} {es' = es'} {b = b} p q i =
      subst (λ y. Image c base l es' y) q (subst (λ x. Image c base l x b) p i)

  -- A whole batch.
  pub batch-Image :
      (batch : List WalEntry) (bytes : Bytes) {l : ℕ} {es : List WalEntry} {b : Bytes}
      → Encodes c batch bytes
      → Image c base l es b
      → Image c base l (es ++ batch) (b ++ bytes)
  batch-Image [] bytes {es = es} {b = b} h i =
      rewrite-Image (sym (append-nil es))
        (sym (ap (λ x. b ++ x) (nil-Encodes c bytes h) ∙ append-nil b)) i
  batch-Image (e ∷ batch) bytes {es = es} {b = b} h i =
      let s = Encodes-cons c e batch bytes h in
      rewrite-Image (append_assoc es (e ∷ []) batch)
        (append_assoc b s.first s.rest ∙ ap (λ x. b ++ x) (sym s.joined))
        (batch-Image batch s.rest s.others (Image.entry e s.first i s.framed))

  -- The entries of a batch that a part of its bytes holds: `in_log`, and after them those that
  -- it does not hold as a whole.
  pub record Cut (l' : ℕ) (es batch : List WalEntry) (b bytes : Bytes) : Type 0 where
    pub in_log : List WalEntry
    pub rest : List WalEntry
    pub split : in_log ++ rest ≡ batch
    pub image : Image c base l' (es ++ in_log) (b ++ bytes)

  none_written :
      {l : ℕ} (l' : ℕ) {es : List WalEntry} {b : Bytes} (batch : List WalEntry) (bytes : Bytes)
      → l < l'
      → bytes ≡ []
      → Image c base l es b
      → Cut l' es batch b bytes
  none_written l' {es = es} {b = b} batch bytes h q i = record {
    in_log = [];
    rest = batch;
    split = refl;
    image =
        rewrite-Image (sym (append-nil es)) (sym (ap (λ x. b ++ x) q ∙ append-nil b))
          (Image.fails l' i (omega arith));
  }

  no_bytes : (n : ℕ) → take {A = ℕ} n [] ≡ []
  no_bytes zero = refl
  no_bytes (suc n) = refl

  -- The first entry of a batch, and the others where it is written as a whole.
  first-Cut :
      (n : ℕ) {l : ℕ} (l' : ℕ) {es : List WalEntry} {b : Bytes} (e : WalEntry)
      (batch : List WalEntry) (rest : Bytes × Bool) (o : Option Bytes)
      → l < l'
      → Image c base l es b
      → frame c e ≡ o
      → ((f : Bytes)
          → Image c base l (es ++ e ∷ []) (b ++ f)
          → Cut l' (es ++ e ∷ []) batch (b ++ f) (take (n - length f) rest.0))
      → Cut l' es (e ∷ batch) b (take n (join_frame o rest).0)
  unfolding join_frame
  first-Cut n l' e batch rest none h i q later =
      none_written l' (e ∷ batch) (take n []) h (no_bytes n) i
  first-Cut n l' {es = es} {b = b} e batch rest (some f) h i q later =
      elim (Bool-cases (leb (length f) n)) [
        | inl whole ↦
            let long : length f ≤ n = ground arith in
            let cut = later f (Image.entry e f i q) in
            record {
              in_log = e ∷ cut.in_log;
              rest = cut.rest;
              split = ap (λ x. e ∷ x) cut.split;
              image =
                  rewrite-Image (append_assoc es (e ∷ []) cut.in_log)
                    (append_assoc b f (take (n - length f) rest.0)
                      ∙ ap (λ x. b ++ x) (sym (take-append_ge n f rest.0 long)))
                    cut.image;
            }
        | inr short ↦
            let less : n ≤ length f = ground arith in
            record {
              in_log = [];
              rest = e ∷ batch;
              split = refl;
              image =
                  rewrite-Image (sym (append-nil es))
                    (ap (λ x. b ++ x) (sym (take-append_le n f rest.0 less)))
                    (Image.part l' e f n i h q);
            }
      ]

  -- A write that fails after `n` bytes of a batch.
  pub part-Image :
      (n : ℕ) (batch : List WalEntry) {l : ℕ} (l' : ℕ) {es : List WalEntry} {b : Bytes}
      → l < l'
      → Image c base l es b
      → Cut l' es batch b (take n (encode_batch c batch).0)
  unfolding encode_batch
  part-Image n [] l' h i = none_written l' [] (take n []) h (no_bytes n) i
  part-Image n (e ∷ batch) l' h i =
      first-Cut n l' e batch (encode_batch c batch) (frame c e) h i refl
        (λ f j. part-Image (n - length f) batch l' h j)
