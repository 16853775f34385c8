-- ===== src/Recovery/Torn.antt =====
-- A process that appends to a log whose end is torn: recovery leaves the torn bytes where they are,
-- and the log file is opened to append.
use mathlib.Core.List.{foldl}
use async_wal_db.Prelude.{
  ℕ, ◌%◌, ◌^◌, ◌<◌, ◌≡◌, ◌≢◌, refl, sym, ap, ◌∙◌, arith, List, ◌++◌, some, length, length-append,
}
use async_wal_db.Entry.{Bytes, WalEntry}
use async_wal_db.Header
use async_wal_db.Header.{WalEntryHeader}
use async_wal_db.Header.Laws.{from_bytes-to_bytes, length-to_bytes}
use async_wal_db.Frame.{Codec, IsLawful, eof}
use async_wal_db.Frame.RoundTrip.{reader}
use async_wal_db.Wal.Encode.{Encodes}
use async_wal_db.Recovery.{
  Memory, recover_with_validation, observe, empty_scan, count_checksum_failure,
}
use async_wal_db.Recovery.Crash.{recover-log, finish-stats}
use async_wal_db.Recovery.Damage.{recover_refused}

-- The log ends in a frame of `body` that was cut off within the data, behind `start`. If `skipped`
-- and `rest` are appended after it, where `skipped` is as long as what was cut off and the checksum
-- tells the difference, recovery leaves what it leaves for the log before the torn frame: nothing of
-- what was appended after it is restored.
pub recover_torn :
    {c : Codec} (l : IsLawful c) (es : List WalEntry) (log : Bytes) (e : WalEntry)
    (body start cut skipped rest : Bytes) (m : Memory)
    → Encodes c es log
    → c.serialize e ≡ some body
    → body ≡ start ++ cut
    → length skipped ≡ length cut
    → c.hash (start ++ skipped) ≢ c.hash body
    → length (log ++ (Header.to_bytes (Header.new c.hash body) ++ ((start ++ skipped) ++ rest)))
      < 2 ^ 64
    → (recover_with_validation c
        (some (
          reader
            (log ++ (Header.to_bytes (Header.new c.hash body) ++ ((start ++ skipped) ++ rest)))
            eof))
        m).0
      ≡ (recover_with_validation c (some (reader log eof)) m).0
unfolding Header.new count_checksum_failure
recover_torn {c} l es log e body start cut skipped rest m h s split same ne small =
    let fits = l.fits e body s in
    let hash_fits = l.hash_fits body in
    let read : Header.from_bytes (Header.to_bytes (Header.new c.hash body))
        ≡ Header.new c.hash body =
      from_bytes-to_bytes (Header.new c.hash body)
        record { length = omega arith; checksum = hash_fits; version = omega arith } in
    let size : length (start ++ skipped) ≡ length body =
      omega
        (arith, length-append start skipped, length-append start cut, ap (length {A = ℕ}) split) in
    let told : length body ≡ length body % 2 ^ 64 = omega arith in
    ap (λ p. p.0)
      (recover_refused l es log (Header.to_bytes (Header.new c.hash body)) (start ++ skipped) rest
        eof m h (length-to_bytes (Header.new c.hash body))
        (size ∙ told ∙ ap (λ (x : WalEntryHeader). x.length) (sym read)) (omega (arith, size, fits))
        (λ p. ne (p ∙ ap (λ (x : WalEntryHeader). x.checksum) read)) small)
    ∙ finish-stats m (count_checksum_failure (foldl observe empty_scan es))
        (foldl observe empty_scan es) refl refl
    ∙ sym (
        recover-log l m es log h (
          omega (
            arith,
            small,
            length-append log
                (Header.to_bytes (Header.new c.hash body) ++ ((start ++ skipped) ++ rest)),
          )))
