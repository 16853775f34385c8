-- ===== src/Frame/Crash.antt =====
-- A frame of which only a strict prefix reached the disk: the reading loop finds the end of file.
use async_wal_db.Prelude.{
  ℕ, ◌≤◌, ◌<◌, ◌≡◌, refl, sym, ap, ◌∙◌, arith, some, [], ◌∷◌, ◌++◌, ltb, length, drop,
  if◌then◌else◌, length-append, length-drop, Bool-cases, inl, inr,
}
use async_wal_db.Entry.{Bytes, WalEntry}
use async_wal_db.Header
use async_wal_db.Header.Laws.{length-to_bytes}
use async_wal_db.Frame.{
  Codec, IsLawful, frame, eof, unexpected_eof, read_exact, read_end, header_eof, data_eof,
  data_read, header_read, read_frame,
}
use async_wal_db.Frame.RoundTrip.{reader, frame-Framed, read_frame-header}

-- Two ways to cut a list, the first one earlier.
pub cut_before :
    (xs ys p q : Bytes)
    → xs ++ ys ≡ p ++ q
    → length xs ≤ length p
    → (p ≡ xs ++ drop (length xs) p) × (ys ≡ drop (length xs) p ++ q)
cut_before [] ys p q e h = (refl, e)
cut_before (x ∷ xs) ys [] q e h = absurd (omega arith)
cut_before (x ∷ xs) ys (a ∷ p) q e h = ground (arith, cut_before xs ys p q)

read_exact_short : (n : ℕ) (p : Bytes) → length p < n → read_exact n (reader p eof) ≡ unexpected_eof
unfolding read_exact
read_exact_short n p h = ground arith

-- A read of less than a frame, `p`, ends at the end of the file: in the header or in the data.
pub read_frame_torn :
    {c : Codec}
    → IsLawful c
    → (e : WalEntry) (f p q : Bytes) → frame c e ≡ some f
    → f ≡ p ++ q
    → length p < length f
    → read_frame c (reader p eof) ≡ (if ltb (length p) Header.size then header_eof else data_eof)
unfolding read_frame header_read data_read
read_frame_torn {c} l e f p q h cut short = elim (Bool-cases (ltb (length p) Header.size)) [
  | inl less ↦ rw (less, read_exact_short Header.size p (ground arith))
  | inr more ↦
      let reached : length header ≤ length p = ground (arith, header_length) in
      let parts = cut_before header body p q (sym split ∙ cut) reached in
      rw (
        more,
        parts.0,
        read_frame-header l e body serialized (drop (length header) p) eof,
        read_exact_short (length body) (drop (length header) p) (
            omega
              (arith, ap length split, length-append header body, length-drop (length header) p)),
      )
]
  where
    open (frame-Framed c e f h) use {body, serialized, split}

    header : Bytes
    header = Header.to_bytes (Header.new c.hash body)

    header_length : length header ≡ Header.size
    header_length = length-to_bytes (Header.new c.hash body)

-- Nothing is left of the file.
pub read_frame_empty : (c : Codec) → read_frame c (reader [] eof) ≡ header_eof
unfolding read_frame header_read read_exact read_end
read_frame_empty c = refl
