-- ===== src/Frame/Damage.antt =====
-- What one round of the reading loop meets where a header or its data is damaged.
use async_wal_db.Prelude.{◌≤◌, ◌<◌, ◌≡◌, ◌≢◌, arith, ◌++◌, ltb, length, true, false}
use async_wal_db.Errors.{checksum_mismatch}
use async_wal_db.Entry.{Bytes}
use async_wal_db.Header
use async_wal_db.Header.Laws.{validate_refuses}
use async_wal_db.Frame.{
  Codec, Tail, too_long, invalid, data_read, checked, header_read, read_frame, isize_max,
}
use async_wal_db.Frame.RoundTrip.{reader, read_exact-append}

module _ (c : Codec) (header rest : Bytes) (t : Tail) (h : length header ≡ Header.size) where
  -- A header whose length no `Vec` can have: `buffer.resize` panics, whatever follows.
  pub read_frame_too_long :
      isize_max < (Header.from_bytes header).length
      → read_frame c (reader (header ++ rest) t) ≡ too_long
  unfolding read_frame header_read
  read_frame_too_long big = rw (read_exact-append Header.size header rest t h, header_read, over)
    where
      over : ltb isize_max (Header.from_bytes header).length ≡ true
      over = ground arith

module _ (c : Codec) (header body rest : Bytes) (t : Tail) (h : length header ≡ Header.size)
    (n : length body ≡ (Header.from_bytes header).length) (fits : length body ≤ isize_max) where
  read_frame_body :
      read_frame c (reader (header ++ (body ++ rest)) t)
      ≡ checked c
          (Header.from_bytes header).length
          body
          (reader rest t)
          (Header.validate c.hash (Header.from_bytes header) body)
  unfolding read_frame header_read data_read
  read_frame_body = rw (
    read_exact-append Header.size header (body ++ rest) t h,
    header_read,
    within,
    read_exact-append (Header.from_bytes header).length body rest t n,
  )
    where
      within : ltb isize_max (Header.from_bytes header).length ≡ false
      within = ground arith

  -- Data whose hash is not the header's checksum.
  pub read_frame_invalid :
      c.hash body ≢ (Header.from_bytes header).checksum
      → read_frame c (reader (header ++ (body ++ rest)) t)
        ≡ invalid (checksum_mismatch (Header.from_bytes header).checksum (c.hash body))
  unfolding checked
  read_frame_invalid ne =
      rw (read_frame_body, validate_refuses c.hash (Header.from_bytes header) body ne)
