-- ===== src/Recovery/Crash.antt =====
-- Recovery after a crash: the log file holds the first `k` bytes of what was written.
use mathlib.Core.List.{foldl}
use async_wal_db.Prelude.{
  ℕ, zero, suc, ◌+◌, ◌-◌, ◌^◌, ◌≤◌, ◌<◌, ◌≡◌, refl, sym, ◌∙◌, arith, List, [], ◌∷◌, ◌++◌, Option,
  none, some, length, take, drop, leb, ltb, if◌then◌else◌, length-take_le, take-append-drop,
  take-append_le, take-append_ge, Bool-cases, inl, inr,
}
use async_wal_db.Entry.{Bytes, WalEntry}
use async_wal_db.Header
use async_wal_db.Frame.{
  Codec, IsLawful, frame, eof, Frame, header_eof, data_eof, entry, read_error, too_long, invalid,
  undecodable,
}
use async_wal_db.Frame.RoundTrip.{reader, read_frame-frame}
use async_wal_db.Frame.Crash.{read_frame_torn, read_frame_empty}
use async_wal_db.Wal.Encode.{Encodes, Encodes-cons, nil-Encodes}
use async_wal_db.Recovery.{
  Scan, empty_scan, observe, stop, Memory, finish, after_scan, recover_with_validation,
  count_partial_write,
}
use async_wal_db.Recovery.Reading.{Reads, stops, next, recover-Reads}

-- The entries whose frames lie within the first `k` bytes of the log of `es`.
fitting : Option Bytes → ℕ → WalEntry → (ℕ → List WalEntry) → List WalEntry
fitting none k e rest = []
fitting (some f) k e rest = if leb (length f) k then e ∷ rest (k - length f) else []

unfoldable pub whole : Codec → List WalEntry → ℕ → List WalEntry
unfolding fitting
whole c [] k = []
whole c (e ∷ es) k = fitting (frame c e) k e (whole c es)

-- The end of the file, in a header or in the data.
abbrev pub IsEof : Frame → Type 0
IsEof header_eof = Unit
IsEof data_eof = Unit
IsEof _ = ⊥

pub record Prefix (c : Codec) (bytes : Bytes) (es : List WalEntry) : Type 0 where
  pub n : ℕ
  pub f : Frame
  pub ends : IsEof f
  pub reads : Reads c (reader bytes eof) es n f

take_nil : (k : ℕ) → take {A = ℕ} k [] ≡ []
take_nil zero = refl
take_nil (suc k) = refl

module _ (c : Codec) where
  Prefix-empty : (bytes : Bytes) → bytes ≡ [] → Prefix c bytes []
  Prefix-empty bytes e = record {
    n = 0;
    f = header_eof;
    ends = tt;
    reads = stops tt (rw e (read_frame_empty c));
  }

  -- A file that ends within the frame of `e`.
  Prefix-torn :
      IsLawful c
      → (e : WalEntry) (f p q : Bytes) → frame c e ≡ some f
      → f ≡ p ++ q
      → length p < length f
      → Prefix c p []
  Prefix-torn l e f p q h cut short = elim (Bool-cases (ltb (length p) Header.size)) [
    | inl less ↦ record {
      n = 0;
      f = header_eof;
      ends = tt;
      reads = stops tt (rw (read_frame_torn l e f p q h cut short, less));
    }
    | inr more ↦ record {
      n = 0;
      f = data_eof;
      ends = tt;
      reads = stops tt (rw (read_frame_torn l e f p q h cut short, more));
    }
  ]

  -- A file that begins with the frame of `e`.
  Prefix-next :
      IsLawful c
      → (e : WalEntry) (f rest : Bytes) (es : List WalEntry) → frame c e ≡ some f
      → Prefix c rest es
      → Prefix c (f ++ rest) (e ∷ es)
  Prefix-next l e f rest es h later =
      let (len, read, size) = read_frame-frame l e f h rest eof in
      record {
        n = Header.size + len + later.n;
        f = later.f;
        ends = later.ends;
        reads = next read refl later.reads;
      }

  reads-whole :
      IsLawful c
      → (es : List WalEntry) (bytes : Bytes) (k : ℕ) → Encodes c es bytes
      → Prefix c (take k bytes) (whole c es k)
  unfolding whole fitting
  reads-whole l [] bytes k h = Prefix-empty (take k bytes) (rw (nil-Encodes c bytes h) (take_nil k))
  reads-whole l (e ∷ es) bytes k h =
      rw (framed, joined)
        (elim (Bool-cases (leb (length first) k)) [
          | inl fits ↦
              rw (fits, take-append_ge k first rest (ground arith))
                (Prefix-next l e first (take (k - length first) rest) _ framed
                  (reads-whole l es rest (k - length first) others))
          | inr torn ↦
              let short : k < length first = ground arith in
              rw (torn, take-append_le k first rest (ground arith))
                (Prefix-torn l e first (take k first) (drop k first) framed
                  (sym (take-append-drop k first))
                  (omega (arith, length-take_le k first (omega arith))))
        ])
    where
      open (Encodes-cons c e es bytes h) use {first, rest, framed, others, joined}

  -- A log that is there from the first byte to the last.
  pub reads-log :
      IsLawful c → (es : List WalEntry) (bytes : Bytes) → Encodes c es bytes → Prefix c bytes es
  reads-log l [] bytes h = Prefix-empty bytes (nil-Encodes c bytes h)
  reads-log l (e ∷ es) bytes h =
      rw joined (Prefix-next l e first rest es framed (reads-log l es rest others))
    where
      open (Encodes-cons c e es bytes h) use {first, rest, framed, others, joined}

-- What phases 2 to 5 write does not depend on the counts of partial writes.
pub finish-stats :
    (m : Memory) (s t : Scan)
    → s.tx_entries ≡ t.tx_entries
    → s.tx_actions ≡ t.tx_actions
    → (finish m s).0 ≡ (finish m t).0
unfolding finish
finish-stats m s t h k = ground arith

after_eof :
    (m : Memory) (f : Frame) (n : ℕ) (s : Scan)
    → IsEof f
    → (after_scan m (stop f n s)).0 ≡ (finish m s).0
unfolding after_scan stop count_partial_write
after_eof m header_eof n s h = elim (Bool-cases (ltb 0 n)) [
  | inl some_read ↦ rw some_read (finish-stats m (count_partial_write s) s refl refl)
  | inr none_read ↦ rw none_read
]
after_eof m data_eof n s h = finish-stats m (count_partial_write s) s refl refl
after_eof m read_error n s h = elim h [ ]
after_eof m too_long n s h = elim h [ ]
after_eof m (invalid x) n s h = elim h [ ]
after_eof m undecodable n s h = elim h [ ]
after_eof m (entry len x r) n s h = elim h [ ]

module _ {c : Codec} (l : IsLawful c) (m : Memory) where
  recover-Prefix :
      (bytes : Bytes) (es : List WalEntry)
      → Prefix c bytes es
      → length bytes < 2 ^ 64
      → (recover_with_validation c (some (reader bytes eof)) m).0
        ≡ (finish m (foldl observe empty_scan es)).0
  recover-Prefix bytes es p small =
      rw (recover-Reads c p.reads m small)
        (after_eof m p.f p.n (foldl observe empty_scan es) p.ends)

  -- On an intact log, recovery does phases 2 to 5 for all its entries.
  pub recover-log :
      (es : List WalEntry) (bytes : Bytes)
      → Encodes c es bytes
      → length bytes < 2 ^ 64
      → (recover_with_validation c (some (reader bytes eof)) m).0
        ≡ (finish m (foldl observe empty_scan es)).0
  recover-log es bytes h = recover-Prefix bytes es (reads-log c l es bytes h)

  -- If only the first `k` bytes of a log survive, recovery leaves the store and the counter that it
  -- leaves for the log of the entries whose frames lie whole within them.
  pub recover-take :
      (es : List WalEntry) (bytes kept : Bytes) (k : ℕ)
      → Encodes c es bytes
      → Encodes c (whole c es k) kept
      → length bytes < 2 ^ 64
      → length kept < 2 ^ 64
      → k ≤ length bytes
      → (recover_with_validation c (some (reader (take k bytes) eof)) m).0
        ≡ (recover_with_validation c (some (reader kept eof)) m).0
  recover-take es bytes kept k h h' small small' within =
      recover-Prefix (take k bytes) (whole c es k) (reads-whole c l es bytes k h)
        (omega (arith, length-take_le k bytes within))
      ∙ sym (recover-log (whole c es k) kept h' small')
