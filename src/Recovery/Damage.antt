-- ===== src/Recovery/Damage.antt =====
-- Recovery of a log that goes on, behind the entries that were written, with something else.
use native.Mathlib.Nat.{zero-add, add-zero}
use mathlib.Core.List.{foldl, append_assoc, append-nil}
use async_wal_db.Prelude.{
  ℕ, ◌+◌, ◌^◌, ◌≤◌, ◌<◌, ◌≡◌, ◌≢◌, ap, ◌∙◌, arith, List, [], ◌∷◌, ◌++◌, some, length, length-append,
  ltb, true, Bool-cases, inl, inr,
}
use async_wal_db.Errors.{ok, panic}
use async_wal_db.Entry.{Bytes, WalEntry}
use async_wal_db.Header
use async_wal_db.Frame.{Codec, IsLawful, Tail, eof, Frame, header_eof, isize_max}
use async_wal_db.Frame.RoundTrip.{reader, read_frame-frame}
use async_wal_db.Frame.Crash.{read_frame_empty}
use async_wal_db.Frame.Damage.{read_frame_too_long, read_frame_invalid}
use async_wal_db.Wal.Encode.{Encodes, Encodes-cons, nil-Encodes}
use async_wal_db.Recovery.{
  RecoveryStats, Scan, empty_scan, observe, stop, count_partial_write, count_checksum_failure,
  Memory, finish, after_scan, recover_with_validation,
}
use async_wal_db.Recovery.Counts.{finish_damage, observe_uncounted}
use async_wal_db.Recovery.Damaged.{
  with_damage, with_damage-with_damage, finish-marked, count_checksum_failure-marked,
  count_partial_write-marked,
}
use async_wal_db.Recovery.Reading.{Reads, stops, next, recover-Reads}

module _ {c : Codec} (l : IsLawful c) where
  -- The loop takes the written entries off the file and goes on behind them.
  pub Reads-append :
      {t : Tail} {rest : Bytes} {es' : List WalEntry} {n : ℕ} {f : Frame}
      (reads : Reads c (reader rest t) es' n f) (es : List WalEntry) (bytes : Bytes)
      → Encodes c es bytes
      → Reads c (reader (bytes ++ rest) t) (es ++ es') (length bytes + n) f
  Reads-append reads [] bytes h = rw (nil-Encodes c bytes h, zero-add) reads
  Reads-append {t} {rest} {n = n} reads (e ∷ es) bytes h =
      let s = Encodes-cons c e es bytes h in
      let (len, read, size) = read_frame-frame l e s.first s.framed (s.rest ++ rest) t in
      rw (s.joined, append_assoc s.first s.rest rest)
        (next read (omega (arith, length-append s.first s.rest))
          (Reads-append reads es s.rest s.others))

  -- An intact log is read to its last entry.
  pub Reads-log :
      (es : List WalEntry) (bytes : Bytes)
      → Encodes c es bytes
      → Reads c (reader bytes eof) es (length bytes) header_eof
  Reads-log es bytes h =
      simp (append-nil, add-zero) at (Reads-append (stops tt (read_frame_empty c)) es bytes h)

  -- Recovery of written entries with `rest` behind them, where the loop ends at `f`.
  recover_then :
      {t : Tail} {rest : Bytes} {f : Frame} (reads : Reads c (reader rest t) [] 0 f)
      (es : List WalEntry) (bytes : Bytes) (m : Memory)
      → Encodes c es bytes
      → length (bytes ++ rest) < 2 ^ 64
      → recover_with_validation c (some (reader (bytes ++ rest) t)) m
        ≡ after_scan m (stop f (length bytes) (foldl observe empty_scan es))
  recover_then {t} {rest} {f} reads es bytes m h small =
      recover-Reads c (Reads-append reads es bytes h) m small
      ∙ ap (λ n. after_scan m (stop f n (foldl observe empty_scan (es ++ [])))) (omega arith)
      ∙ ap (λ l. after_scan m (stop f (length bytes) (foldl observe empty_scan l))) (append-nil es)

  -- Behind the written entries stands a header whose length is above `isize::MAX`: recovery panics.
  pub recover_too_long :
      (es : List WalEntry) (bytes header rest : Bytes) (t : Tail) (m : Memory)
      → Encodes c es bytes
      → length header ≡ Header.size
      → isize_max < (Header.from_bytes header).length
      → length (bytes ++ (header ++ rest)) < 2 ^ 64
      → recover_with_validation c (some (reader (bytes ++ (header ++ rest)) t)) m ≡ (m, panic)
  unfolding after_scan stop
  recover_too_long es bytes header rest t m h size big small =
      recover_then (stops tt (read_frame_too_long c header rest t size big)) es bytes m h small

  -- Behind the written entries stands a header with data that have another hash.
  pub recover_refused :
      (es : List WalEntry) (bytes header body rest : Bytes) (t : Tail) (m : Memory)
      → Encodes c es bytes
      → length header ≡ Header.size
      → length body ≡ (Header.from_bytes header).length
      → length body ≤ isize_max
      → c.hash body ≢ (Header.from_bytes header).checksum
      → length (bytes ++ (header ++ (body ++ rest))) < 2 ^ 64
      → recover_with_validation c (some (reader (bytes ++ (header ++ (body ++ rest))) t)) m
        ≡ finish m (count_checksum_failure (foldl observe empty_scan es))
  unfolding after_scan stop
  recover_refused es bytes header body rest t m h size n fits ne small =
      recover_then (stops tt (read_frame_invalid c header body rest t size n fits ne)) es bytes m h
        small

  -- An intact log: the end of the file is found where a header would begin.
  pub recover_intact :
      (es : List WalEntry) (bytes : Bytes) (m : Memory)
      → Encodes c es bytes
      → length bytes < 2 ^ 64
      → recover_with_validation c (some (reader bytes eof)) m
        ≡ after_scan m (stop header_eof (length bytes) (foldl observe empty_scan es))
  recover_intact es bytes m h small = recover-Reads c (Reads-log es bytes h) m small

  -- Behind the written entries stands a header of a length that can be allocated, with data of that
  -- length that have another hash than it says: on a file of fewer than 2 ^ 64 bytes, whatever
  -- follows and however the file ends, recovery leaves the memory, and returns the error or the
  -- counts, that it does on the written entries alone, but for the counts of damage: there are no
  -- partial writes and one checksum failure.
  pub recover_invalid :
      (es : List WalEntry) (bytes header body rest : Bytes) (t : Tail) (m : Memory)
      → Encodes c es bytes
      → length header ≡ Header.size
      → length body ≡ (Header.from_bytes header).length
      → length body ≤ isize_max
      → c.hash body ≢ (Header.from_bytes header).checksum
      → length (bytes ++ (header ++ (body ++ rest))) < 2 ^ 64
      → recover_with_validation c (some (reader (bytes ++ (header ++ (body ++ rest))) t)) m ≡ (
        (recover_with_validation c (some (reader bytes eof)) m).0,
        with_damage 0 1 (recover_with_validation c (some (reader bytes eof)) m).1,
      )
  unfolding after_scan stop
  recover_invalid es bytes header body rest t m h size n fits ne small =
      let s = foldl observe empty_scan es in
      let none_counted = observe_uncounted es in
      let intact =
        recover_intact es bytes m h
          (omega (arith, small, length-append bytes (header ++ (body ++ rest)))) in
      let torn : finish m (count_partial_write s)
          ≡ ((finish m s).0, with_damage 1 0 (finish m s).1) =
        ap (finish m) (count_partial_write-marked s none_counted) ∙ finish-marked m 1 0 s in
      recover_refused es bytes header body rest t m h size n fits ne small
      ∙ ap (finish m) (count_checksum_failure-marked s none_counted)
      ∙ finish-marked m 0 1 s
      ∙ elim (Bool-cases (ltb 0 (length bytes))) [
        | inl some_read ↦
            rw (intact, some_read, torn, with_damage-with_damage 0 1 1 0 (finish m s).1)
        | inr none_read ↦ rw (intact, none_read)
      ]

  -- A log of at least one entry is not empty.
  length-Encodes :
      (e : WalEntry) (es : List WalEntry) (bytes : Bytes)
      → Encodes c (e ∷ es) bytes
      → 0 < length bytes
  length-Encodes e es bytes h =
      let s = Encodes-cons c e es bytes h in
      let (len, read, size) = read_frame-frame l e s.first s.framed [] eof in
      omega (arith, ap length s.joined, length-append s.first s.rest)

  -- Every intact log of at least one entry is reported to have one partial write: the end of the
  -- file is taken for a torn header.
  pub intact_counts_partial_write :
      (e : WalEntry) (es : List WalEntry) (bytes : Bytes) (m : Memory) (st : RecoveryStats)
      → Encodes c (e ∷ es) bytes
      → length bytes < 2 ^ 64
      → (recover_with_validation c (some (reader bytes eof)) m).1 ≡ ok st
      → st.partial_writes ≡ 1
  unfolding after_scan stop count_partial_write
  intact_counts_partial_write e es bytes m st h small r =
      (finish_damage m (count_partial_write seen) st
        (rw (recover_intact (e ∷ es) bytes m h small, after_scan, stop, counted) at r)).0
      ∙ ap (λ (x : RecoveryStats). x.partial_writes + 1) (observe_uncounted (e ∷ es))
    where
      seen : Scan
      seen = foldl observe empty_scan (e ∷ es)

      counted : ltb 0 (length bytes) ≡ true
      counted = ground (arith, length-Encodes e es bytes h)
