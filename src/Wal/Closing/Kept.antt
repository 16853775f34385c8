-- ===== src/Wal/Closing/Kept.antt =====
-- What `stop_flusher` and `truncate_wal` keep of the log on disks that do not fail.
use async_wal_db.Prelude.{
  ℕ, ◌≡◌, ◌≢◌, refl, sym, ap, ◌∙◌, arith, List, [], ◌∷◌, ◌++◌, true, false, Option, none, some, All,
  length, length-append, Bool-cases, inl, inr, bytes_eq, bytes_beq, bytes_beq_iff,
}
use async_wal_db.Prelude.Map
use async_wal_db.Prelude.Map.{get-insert, get-remove}
use mathlib.Core.List.{append-nil}
use async_wal_db.Errors.{Result, ok, codes}
use async_wal_db.Entry.{Bytes, WalEntry}
use async_wal_db.Frame.{Codec}
use async_wal_db.Wal.{WalStorage, Disk, fine, contents, log_file, with_config, background, flush}
use async_wal_db.Wal.Encode.{Encodes}
use async_wal_db.Wal.Durable.{IsFine, drain_and_flush_fine, flush_fine}
use async_wal_db.Wal.Holds.{CanEncode, Holds, pending-Encodes, Drained-Holds, background-Holds}
use async_wal_db.Wal.Closing.{rounds, stop_flusher, old_path, renamed, flushed, truncate_wal}

rounds-Holds :
    (c : Codec) (bs : List (Option Disk)) (w : WalStorage) (total : List WalEntry)
    → All IsFine bs
    → Holds c w total
    → All (CanEncode c) total
    → Holds c (rounds c bs w) total
unfolding rounds
rounds-Holds c [] w total f h all = h
rounds-Holds c (b ∷ bs) w total f h all =
    rounds-Holds c bs (background c b w) total f.1 (background-Holds c b w total f.0 h all) all

pub stop_flusher-ok :
    (c : Codec) (bs : List (Option Disk)) (disk : Disk) (w : WalStorage)
    → (stop_flusher c true bs disk w).1 ≡ ok tt
unfolding stop_flusher
stop_flusher-ok c bs disk w = refl

-- Once the flusher has been stopped, all that was appended stands in the log file.
pub stop_flusher-Holds :
    (c : Codec) (bs : List (Option Disk)) (disk : Disk) (w : WalStorage) (total : List WalEntry)
    → All IsFine bs
    → disk.outcome ≡ fine
    → Holds c w total
    → All (CanEncode c) total
    → ((stop_flusher c true bs disk w).0.pending ≡ [])
      × Holds c (stop_flusher c true bs disk w).0 total
unfolding stop_flusher
stop_flusher-Holds c bs disk w total f fd h all =
    let later = rounds-Holds c bs w total f h all in
    let (b, e) = pending-Encodes c (rounds c bs w) total later all in
    let drained = (drain_and_flush_fine c disk (rounds c bs w) b fd later.settled e).1 in
    (drained.emptied, Drained-Holds c (rounds c bs w) _ total b later e drained)

-- All that was appended, of which nothing is pending.
logged_all :
    (c : Codec) (w : WalStorage) (total : List WalEntry)
    → Holds c w total
    → w.pending ≡ []
    → Encodes c total (log_file w)
logged_all c w total h idle =
    let all : h.logged ≡ total = sym (append-nil h.logged) ∙ rw (sym idle) h.split in
    rw (sym all) h.encoded

beq_false : (a b : Bytes) → a ≢ b → bytes_beq a b ≡ false
beq_false a b h = elim (Bool-cases (bytes_beq a b)) [
  | inl same ↦ absurd (h ((bytes_beq_iff a b).0 same))
  | inr other ↦ other
]

old_path_other : (w : WalStorage) → old_path w ≢ w.path
old_path_other w e = omega (arith, ap (length {A = ℕ}) e, length-append w.path (codes ".old"))

-- The log under its old name, and a new log, which is empty.
pub record Truncated (w w' : WalStorage) (bytes : Bytes) : Type 0 where
  pub old_log : Map.get (old_path w) w'.files ≡ some bytes
  pub new_log : log_file w' ≡ []
  pub emptied : w'.pending ≡ []
  pub same_path : w'.path ≡ w.path

renamed-Truncated :
    (w : WalStorage) (bytes : Bytes) → Truncated w (renamed true w.path w (some bytes)).0 bytes
unfolding renamed with_config
renamed-Truncated w bytes =
    let self = (bytes_beq_iff w.path w.path).1 refl in
    let self' = (bytes_beq_iff (old_path w) (old_path w)).1 refl in
    let moved = Map.insert (old_path w) bytes (Map.remove w.path w.files) in
    let gone : Map.get w.path moved ≡ none =
      get-insert (old_path w) w.path bytes (Map.remove w.path w.files)
      ∙ rw (beq_false (old_path w) w.path (old_path_other w))
          (get-remove w.path w.path w.files ∙ rw self refl) in
    record {
      old_log =
          get-insert w.path (old_path w) (contents (Map.get w.path moved)) moved
          ∙ rw (beq_false w.path (old_path w) (λ e. old_path_other w (sym e))) (
              get-insert (old_path w) (old_path w) bytes (Map.remove w.path w.files)
              ∙ rw self' refl);
      new_log =
          ap contents (get-insert w.path w.path (contents (Map.get w.path moved)) moved)
          ∙ rw self (ap contents gone);
      emptied = refl;
      same_path = refl;
    }

flushed-Truncated :
    (path : Bytes) (p : WalStorage × Result (Unit {0})) (o : Option Bytes)
    → p.1 ≡ ok tt
    → path ≡ p.0.path
    → Map.get p.0.path p.0.files ≡ o
    → o ≢ none
    → ((flushed true path p).1 ≡ ok tt) × Truncated p.0 (flushed true path p).0 (contents o)
unfolding flushed renamed
flushed-Truncated path p none done same e there = absurd (there refl)
flushed-Truncated path (w, ok u) (some bytes) done same e there =
    rw (same, e) (refl, renamed-Truncated w bytes)
flushed-Truncated path (w, Result.err x) (some bytes) done same e there = absurd (cc (done))
flushed-Truncated path (w, Result.panic) (some bytes) done same e there = absurd (cc (done))
flushed-Truncated path (w, Result.unfinished) (some bytes) done same e there = absurd (cc (done))

-- A truncation at the same path moves all that was appended to the old file.
pub truncate_wal-Truncated :
    (c : Codec) (bs : List (Option Disk)) (disk : Disk) (w : WalStorage) (total : List WalEntry)
    → All IsFine bs
    → disk.outcome ≡ fine
    → Holds c w total
    → All (CanEncode c) total
    → Map.get w.path w.files ≢ none
    → (bytes : Bytes) × Encodes c total bytes
      × ((truncate_wal c bs disk true w.path w).1 ≡ ok tt)
      × Truncated w (truncate_wal c bs disk true w.path w).0 bytes
unfolding truncate_wal
truncate_wal-Truncated c bs disk w total f fd h all there =
    let (b, e) = pending-Encodes c w total h all in
    let (done, drained) = flush_fine c bs disk w b f fd h.settled e in
    let u = (flush c bs disk w).0 in
    let later = Drained-Holds c w u total b h e drained in
    let (good, t) =
      flushed-Truncated w.path (flush c bs disk w) (Map.get u.path u.files) done
        (sym drained.same_path) refl (drained.there there) in
    (
      log_file u,
      logged_all c u total later drained.emptied,
      good,
      record {
        old_log =
            ap (λ p. Map.get (p ++ codes ".old") (flushed true w.path (flush c bs disk w)).0.files)
              (sym drained.same_path)
            ∙ t.old_log;
        new_log = t.new_log;
        emptied = t.emptied;
        same_path = t.same_path ∙ drained.same_path;
      },
    )
