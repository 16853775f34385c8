-- ===== src/Frame/RoundTrip.antt =====
-- An entry that was written is read back, whatever follows it.
use async_wal_db.Prelude.{
  ℕ, ◌+◌, ◌-◌, ◌^◌, ◌≡◌, refl, ap, arith, Option, none, some, ◌++◌, ltb, leb, length, length-append,
  take-append_length, drop-append_length, true, false,
}
use mathlib.Core.List.{append_assoc}
use async_wal_db.Entry.{Bytes, WalEntry}
use async_wal_db.Header
use async_wal_db.Header.Laws.{InRange, from_bytes-to_bytes, length-to_bytes, validate-new}
use async_wal_db.Frame.{
  Codec, IsLawful, frame_of, frame, Tail, Reader, got, read_exact, entry, decoded, checked,
  data_read, header_read, read_frame,
}

abbrev pub reader : Bytes → Tail → Reader
reader bs t = record { bytes = bs; tail = t }

-- Enough bytes: `read_exact` takes them and leaves the rest.
pub read_exact-append :
    (n : ℕ) (xs ys : Bytes) (t : Tail)
    → length xs ≡ n
    → read_exact n (reader (xs ++ ys) t) ≡ got xs (reader ys t)
unfolding read_exact
read_exact-append n xs ys t e =
    rw (← e, le_append, take-append_length xs ys, drop-append_length xs ys)
  where
    le_append : leb (length xs) (length (xs ++ ys)) ≡ true
    le_append = ground (arith, length-append xs ys)

-- A frame is the header of its data, and its data.
pub record Framed (c : Codec) (e : WalEntry) (f : Bytes) : Type 0 where
  pub body : Bytes
  pub serialized : c.serialize e ≡ some body
  pub split : f ≡ Header.to_bytes (Header.new c.hash body) ++ body

pub frame-Framed : (c : Codec) (e : WalEntry) (f : Bytes) → frame c e ≡ some f → Framed c e f
unfolding frame frame_of
frame-Framed c e f h = split_frame (c.serialize e) refl h
  where
    split_frame : (o : Option Bytes) → c.serialize e ≡ o → frame_of c o ≡ some f → Framed c e f
    split_frame none s q = cc
    split_frame (some b) s q = record { body = b; serialized = s; split = ground arith }

new-InRange :
    {c : Codec}
    → IsLawful c
    → (e : WalEntry) (b : Bytes) → c.serialize e ≡ some b
    → InRange (Header.new c.hash b)
unfolding Header.new
new-InRange l e b s = record {
  length = omega (arith, l.fits e b s);
  checksum = l.hash_fits b;
  version = omega arith;
}

length-new :
    {c : Codec}
    → IsLawful c
    → (e : WalEntry) (b : Bytes) → c.serialize e ≡ some b
    → (Header.new c.hash b).length ≡ length b
unfolding Header.new
length-new l e b s = omega (arith, l.fits e b s)

-- After the header of `b` come exactly the bytes of `b`: they pass the checksum and decode.
data_read-body :
    {c : Codec}
    → IsLawful c
    → (e : WalEntry) (b : Bytes) → c.serialize e ≡ some b
    → (r : Reader) → data_read c (Header.new c.hash b) (got b r) ≡ entry (length b) e r
unfolding data_read checked decoded
data_read-body {c} l e b s r =
    rw (validate-new c.hash b, l.round_trip e b s) (ap (λ n. entry n e r) (length-new l e b s))

-- Reading a header that was written.
pub read_frame-header :
    {c : Codec}
    → IsLawful c
    → (e : WalEntry) (b : Bytes) → c.serialize e ≡ some b
    → (rest : Bytes) (t : Tail)
    → read_frame c (reader (Header.to_bytes (Header.new c.hash b) ++ rest) t)
      ≡ data_read c (Header.new c.hash b) (read_exact (length b) (reader rest t))
unfolding read_frame header_read
read_frame-header {c} l e b s rest t = rw (
  read_exact-append Header.size (Header.to_bytes (Header.new c.hash b)) rest t
      (length-to_bytes (Header.new c.hash b)),
  header_read,
  from_bytes-to_bytes (Header.new c.hash b) (new-InRange l e b s),
  length-new l e b s,
  small,
)
  where
    small : ltb (2 ^ 63 - 1) (length b) ≡ false
    small = ground (arith, l.fits e b s)

-- A frame is read back as its entry, and what stands behind it is left to be read.
pub read_frame-frame :
    {c : Codec}
    → IsLawful c
    → (e : WalEntry) (f : Bytes) → frame c e ≡ some f
    → (rest : Bytes) (t : Tail)
    → (n : ℕ) × (read_frame c (reader (f ++ rest) t) ≡ entry n e (reader rest t))
      × (Header.size + n ≡ length f)
read_frame-frame {c} l e f h rest t = (
  length body,
  rw (
    split,
    append_assoc (Header.to_bytes (Header.new c.hash body)) body rest,
    read_frame-header l e body serialized (body ++ rest) t,
    read_exact-append (length body) body rest t refl,
    data_read-body l e body serialized (reader rest t),
  ),
  omega (
    arith,
    ap length split,
    length-append (Header.to_bytes (Header.new c.hash body)) body,
    length-to_bytes (Header.new c.hash body),
  ),
)
  where
    open (frame-Framed c e f h) use {body, serialized, split}
