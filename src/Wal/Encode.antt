-- ===== src/Wal/Encode.antt =====
-- The bytes of a batch of entries.
use async_wal_db.Prelude.{◌≡◌, refl, arith, List, [], ◌∷◌, ◌++◌, true, Option, none, some}
use mathlib.Core.List.{append_assoc}
use async_wal_db.Entry.{Bytes, WalEntry}
use async_wal_db.Frame.{Codec, frame}
use async_wal_db.Wal.{encode_batch, join_frame}

-- All of `es` can be serialized, and their frames are `bytes`.
abbrev pub Encodes : Codec → List WalEntry → Bytes → Type 0
Encodes c es bytes = encode_batch c es ≡ (bytes, true)

pub record Split (c : Codec) (e : WalEntry) (es : List WalEntry) (bytes : Bytes) : Type 0 where
  pub first : Bytes
  pub rest : Bytes
  pub framed : frame c e ≡ some first
  pub others : Encodes c es rest
  pub joined : bytes ≡ first ++ rest

pub Encodes-cons :
    (c : Codec) (e : WalEntry) (es : List WalEntry) (bytes : Bytes)
    → Encodes c (e ∷ es) bytes
    → Split c e es bytes
unfolding encode_batch
Encodes-cons c e es bytes h = go (frame c e) refl h
  where
    go :
        (o : Option Bytes)
        → frame c e ≡ o
        → join_frame o (encode_batch c es) ≡ (bytes, true)
        → Split c e es bytes
    go none q p = absurd (cc)
    go (some f) q p = record {
      first = f;
      rest = (encode_batch c es).0;
      framed = q;
      others = ground arith;
      joined = ground arith;
    }

pub cons-Encodes :
    (c : Codec) (e : WalEntry) (es : List WalEntry) (f rest : Bytes)
    → frame c e ≡ some f
    → Encodes c es rest
    → Encodes c (e ∷ es) (f ++ rest)
unfolding encode_batch
cons-Encodes c e es f rest q h = rw (q, h)

pub nil-Encodes : (c : Codec) (bytes : Bytes) → Encodes c [] bytes → bytes ≡ []
unfolding encode_batch
nil-Encodes c bytes h = ground arith

-- The log of two batches is the log of the first and then that of the second.
pub Encodes-append :
    (c : Codec) (xs ys : List WalEntry) (bx by' : Bytes)
    → Encodes c xs bx
    → Encodes c ys by'
    → Encodes c (xs ++ ys) (bx ++ by')
Encodes-append c [] ys bx by' hx hy = rw (nil-Encodes c bx hx) hy
Encodes-append c (x ∷ xs) ys bx by' hx hy =
    let s = Encodes-cons c x xs bx hx in
    rw (s.joined, append_assoc s.first s.rest by')
      (cons-Encodes c x (xs ++ ys) s.first (s.rest ++ by') s.framed
        (Encodes-append c xs ys s.rest by' s.others hy))
