-- ===== src/Recovery/Reading.antt =====
-- Which entries the reading loop of recovery takes off a log file, and how the loop ends.
use mathlib.Core.List.{foldl}
use mathlib.Core.Path.{subst}
use async_wal_db.Prelude.{
  some, ℕ, zero, suc, ◌+◌, ◌%◌, ◌^◌, ◌<◌, ◌≡◌, ◌≢◌, refl, ap, inl, inr, ◌⊎◌, ◌∙◌, arith, List, [],
  ◌∷◌, length, ltb, if◌then◌else◌,
}
use async_wal_db.Errors.{Result, panic, unfinished}
use async_wal_db.Entry.{WalEntry}
use async_wal_db.Header
use async_wal_db.Frame.{
  Codec, Reader, Frame, header_eof, data_eof, read_error, too_long, invalid, undecodable, entry,
  read_frame,
}
use async_wal_db.Frame.Size.{read_frame_takes}
use async_wal_db.Recovery.{
  RecoveryStats, count_partial_write, count_checksum_failure, Scan, empty_scan, observe, stop, scan,
  Memory, recover_with_validation, after_scan, finish,
}

-- The frames that end the loop.
abbrev pub IsStop : Frame → Type 0
IsStop (entry len e r) = ⊥
IsStop _ = Unit

-- Reading from `r` takes the entries `es` off it, `n` bytes in all, and then meets `f`.
pub data Reads (c : Codec) : Reader → List WalEntry → ℕ → Frame → Type 0 where
  stops : {r : Reader} {f : Frame} → IsStop f → read_frame c r ≡ f → Reads c r [] 0 f
  next :
      {r r' : Reader} {e : WalEntry} {es : List WalEntry} {len n total : ℕ} {f : Frame}
      → read_frame c r ≡ entry len e r'
      → total ≡ Header.size + len + n
      → Reads c r' es n f
      → Reads c r (e ∷ es) total f

module _ (c : Codec) where
  scan-stop :
      (r : Reader) (f : Frame) (rounds offset : ℕ) (s : Scan)
      → IsStop f
      → read_frame c r ≡ f
      → scan c (suc rounds) r offset s ≡ stop f offset s
  unfolding scan
  scan-stop r (entry len x r') rounds offset s h e = elim h [ ]
  scan-stop r f rounds offset s h e = rw (e, scan)

  scan-next :
      (r r' : Reader) (x : WalEntry) (len rounds offset : ℕ) (s : Scan)
      → read_frame c r ≡ entry len x r'
      → scan c (suc rounds) r offset s
        ≡ scan c rounds r' ((offset + Header.size + len) % 2 ^ 64) (observe s x)
  unfolding scan
  scan-next r r' x len rounds offset s e = rw (e, scan)

  -- The loop does what `Reads` says, if it is given a round for each byte and one more, and the
  -- offset stays within a `u64`.
  pub scan-Reads :
      {r : Reader} {es : List WalEntry} {n : ℕ} {f : Frame} (reads : Reads c r es n f)
      (rounds offset : ℕ) (s : Scan)
      → length r.bytes < rounds
      → offset + length r.bytes < 2 ^ 64
      → scan c rounds r offset s ≡ stop f (offset + n) (foldl observe s es)
  scan-Reads reads zero offset s h u = absurd (omega arith)
  scan-Reads {r} {f = f} (stops ends e) (suc rounds) offset s h u =
      scan-stop r f rounds offset s ends e ∙ ap (λ k. stop f k s) (omega arith)
  scan-Reads {r} {n = m} {f = f} (next {r' = r'} {e = x} {es = xs} {len = len} {n = n} e t reads)
        (suc rounds) offset s h u =
      let taken = read_frame_takes c r r' len x e in
      scan-next r r' x len rounds offset s e
      ∙ scan-Reads {r = r'} {es = xs} {n = n} {f = f} reads rounds
          ((offset + Header.size + len) % 2 ^ 64) (observe s x) (omega arith) (omega arith)
      ∙ ap (λ k. stop f k (foldl observe (observe s x) xs)) (omega arith)

  pub record Contents (r : Reader) : Type 0 where
    pub es : List WalEntry
    pub n : ℕ
    pub f : Frame
    pub reads : Reads c r es n f

  read_from :
      (r : Reader) (f : Frame)
      → read_frame c r ≡ f
      → ((r' : Reader) → length r'.bytes < length r.bytes → Contents r')
      → Contents r
  read_from r (entry len x r') e rest =
      let tail = rest r' (omega (arith, read_frame_takes c r r' len x e)) in
      record {
        es = x ∷ tail.es;
        n = Header.size + len + tail.n;
        f = tail.f;
        reads = next e refl tail.reads;
      }
  read_from r header_eof e rest = record { es = []; n = 0; f = header_eof; reads = stops tt e }
  read_from r f e rest = record { es = []; n = 0; f = f; reads = stops tt e }

  read_within : (k : ℕ) (r : Reader) → length r.bytes < k → Contents r
  read_within zero r h = absurd (omega arith)
  read_within (suc k) r h =
      read_from r (read_frame c r) refl (λ r' less. read_within k r' (omega arith))

  -- Every file can be read to an end.
  pub read_all : (r : Reader) → Contents r
  read_all r = read_within (suc (length r.bytes)) r (omega arith)

  -- Recovery of a file from which `es` can be read before `f` is met.
  pub recover-Reads :
      {r : Reader} {es : List WalEntry} {n : ℕ} {f : Frame} (reads : Reads c r es n f) (m : Memory)
      → length r.bytes < 2 ^ 64
      → recover_with_validation c (some r) m ≡ after_scan m (stop f n (foldl observe empty_scan es))
  unfolding recover_with_validation
  recover-Reads {r} {es} {n} {f} reads m h = ap (after_scan m) (
      scan-Reads reads (length r.bytes + 1) 0 empty_scan (omega arith) (omega arith)
      ∙ ap (λ k. stop f k (foldl observe empty_scan es)) (omega arith))

  Reads-IsStop : {r : Reader} {es : List WalEntry} {n : ℕ} {f : Frame} → Reads c r es n f → IsStop f
  Reads-IsStop (stops ends e) = ends
  Reads-IsStop (next e t reads) = Reads-IsStop reads

-- Recovery has come to an end of its own: with the counts, or with an error.
abbrev pub Returns : Result RecoveryStats → Type 0
Returns r = (r ≢ panic) × (r ≢ unfinished)

finish-Returns : (m : Memory) (s : Scan) → Returns (finish m s).1
unfolding finish
finish-Returns m s = ground arith

-- Only a length that cannot be allocated does not let the loop return.
stop-Returns :
    (m : Memory) (f : Frame) (n : ℕ) (s : Scan)
    → IsStop f
    → Returns (after_scan m (stop f n s)).1 ⊎ (f ≡ too_long)
unfolding stop after_scan
stop-Returns m header_eof n s h =
    inl (finish-Returns m (if ltb 0 n then count_partial_write s else s))
stop-Returns m data_eof n s h = inl (finish-Returns m (count_partial_write s))
stop-Returns m read_error n s h = inl (λ e. cc, λ e. cc)
stop-Returns m too_long n s h = inr refl
stop-Returns m (invalid e) n s h = inl (finish-Returns m (count_checksum_failure s))
stop-Returns m undecodable n s h = inl (finish-Returns m (count_partial_write s))
stop-Returns m (entry len e r) n s h = elim h [ ]

-- On every log file of fewer than 2 ^ 64 bytes, intact or not, and whether or not the device fails
-- behind them, recovery comes to an end: it returns the counts or an error, or, behind the entries
-- that it has read, the loop meets a header with a length that `buffer.resize` cannot allocate, and
-- recovery panics with the memory as it was.
pub recover_terminates :
    (c : Codec) (r : Reader) (m : Memory)
    → length r.bytes < 2 ^ 64
    → Returns (recover_with_validation c (some r) m).1
      ⊎ ((es : List WalEntry) × (n : ℕ) × Reads c r es n too_long
          × (recover_with_validation c (some r) m ≡ (m, panic)))
unfolding stop after_scan
recover_terminates c r m h =
    let whole = read_all c r in
    let done = recover-Reads c whole.reads m h in
    elim (stop-Returns m whole.f whole.n (foldl observe empty_scan whole.es)
      (Reads-IsStop c whole.reads)) [
        | inl returned ↦ inl (rw done returned)
        | inr long ↦ inr (
          whole.es,
          whole.n,
          subst (λ f. Reads c r whole.es whole.n f) long whole.reads,
          done ∙ ap (λ f. after_scan m (stop f whole.n (foldl observe empty_scan whole.es))) long,
        )
      ]
