-- ===== src/Wal/Simulation/Settled.antt =====
-- What the counter tells of the log file.
use async_wal_db.Prelude.{
  ℕ, ◌^◌, ◌≤◌, ◌<◌, ◌≡◌, refl, sym, ap, ◌∙◌, arith, List, [], ◌∷◌, ◌++◌, length, length-append,
  nil_of_length, bytes_eq,
}
use async_wal_db.Prelude.Map
use mathlib.Core.Path.{subst}
use mathlib.Core.List.{append-nil, append_assoc}
use async_wal_db.Entry.{Bytes, WalEntry}
use async_wal_db.Frame.{Codec}
use async_wal_db.Wal.{Files, WalStorage, contents, log_file, with_config, encode_batch}
use async_wal_db.Wal.Encode.{Encodes, cons-Encodes, Encodes-append}
use async_wal_db.Wal.Simulation.{Image, Matches}
use async_wal_db.Wal.Simulation.Calls.{Call, run, run-Reach}
use async_wal_db.Tasks.{Shared}
use async_wal_db.Tasks.Reachable.{Reach-IsTallied}
use async_wal_db.Tasks.Safety.{count_zero_durable}

module _ (c : Codec) (base : Bytes) where
  -- Where no batch has failed, there are only whole frames.
  Image-Encodes :
      {l : ℕ} {es : List WalEntry} {b : Bytes}
      → Image c base l es b
      → l ≡ 0
      → (bytes : Bytes) × Encodes c es bytes × (b ≡ base ++ bytes)
  unfolding encode_batch
  Image-Encodes Image.origin z = ([], refl, sym (append-nil base))
  Image-Encodes (Image.entry {es = es} {b = b} e f i q) z =
      let (bytes, enc, same) = Image-Encodes i z in
      (
        bytes ++ f,
        Encodes-append c es (e ∷ []) bytes f enc
            (rw (append-nil f) at (cons-Encodes c e [] f [] q refl)),
        ap (λ x. x ++ f) same ∙ append_assoc base bytes f,
      )
  Image-Encodes (Image.fails l' i le) z = Image-Encodes i (omega arith)
  Image-Encodes (Image.part l' e f n i lt q) z = absurd (omega arith)

-- The log file is what it was, with the frames of `entries` after it; all of it is synced, and the
-- writer holds nothing back.
pub record OnDisk (c : Codec) (base : Bytes) (entries : List WalEntry) (w : WalStorage)
    : Type 0 where
  pub frames : Bytes
  pub encoded : Encodes c entries frames
  pub file : log_file w ≡ base ++ frames
  pub unbuffered : w.buffered ≡ []
  pub synced : w.durable ≡ length (log_file w)

rest_is_empty : (xs ys : Bytes) → xs ++ ys ≡ xs → ys ≡ []
rest_is_empty xs ys e = nil_of_length ys (omega (arith, length-append xs ys, ap (length {A = ℕ}) e))

covered-OnDisk :
    (c : Codec) (base : Bytes) (w : WalStorage) (m : Shared)
    → Matches c base w m
    → m.leaked ≡ 0
    → length m.log ≤ m.durable
    → OnDisk c base m.log w
covered-OnDisk c base w m h z le =
    let s = h.synced in
    let none_after : s.entries_after ≡ [] = nil_of_length s.entries_after (
      omega (
        arith,
        s.entries_covered,
        ap (length {A = WalEntry}) s.log,
        length-append s.entries s.entries_after,
      )) in
    let same_log : s.entries ≡ m.log =
      sym (append-nil s.entries) ∙ sym (ap (λ l. s.entries ++ l) none_after) ∙ sym s.log in
    let (frames, enc, all) = Image-Encodes c base h.image z in
    let (frames', enc', part) = Image-Encodes c base s.image (omega (arith, s.leaked_before)) in
    let same : frames' ≡ frames =
      ap (λ r. r.0) (sym (subst (λ l. Encodes c l frames') same_log enc') ∙ enc) in
    let tail : s.bytes_after ++ w.buffered ≡ [] =
      rest_is_empty s.bytes (s.bytes_after ++ w.buffered) (
        sym (append_assoc s.bytes s.bytes_after w.buffered)
        ∙ ap (λ b. b ++ w.buffered) (sym s.file)
        ∙ all
        ∙ ap (λ b. base ++ b) (sym same)
        ∙ sym part) in
    let lengths = length-append s.bytes_after w.buffered in
    let empty : s.bytes_after ≡ [] =
      nil_of_length s.bytes_after (omega (arith, lengths, ap (length {A = ℕ}) tail)) in
    let file : log_file w ≡ s.bytes = s.file ∙ ap (λ b. s.bytes ++ b) empty ∙ append-nil s.bytes in
    record {
      frames = frames;
      encoded = enc;
      file = file ∙ part ∙ ap (λ b. base ++ b) same;
      unbuffered = nil_of_length w.buffered (omega (arith, lengths, ap (length {A = ℕ}) tail));
      synced = s.bytes_covered ∙ ap (length {A = ℕ}) (sym file);
    }

-- When the counter is 0 after any calls on a new storage, on any disk and with any turns of the
-- flusher, the file is what it was before, then the frames of exactly the entries whose `append`
-- has returned, in that order, all of it synced and nothing in the buffer.
pub count_zero-OnDisk :
    (c : Codec) (files : Files) (path : Bytes) (n : ℕ) (calls : List Call)
    → n < 2 ^ 64
    → (run c calls (with_config files path n) []).0.pending_count ≡ 0
    → (let r = run c calls (with_config files path n) [] in
        OnDisk c (contents (Map.get path files)) r.1 r.0)
count_zero-OnDisk c files path n calls small zero =
    let r = run c calls (with_config files path n) [] in
    let (s, reach, pushed, h) = run-Reach c files path n calls in
    let m = s.shared in
    let tally = Reach-IsTallied small reach in
    let counted : m.pending_count ≡ 0 = sym h.count ∙ zero in
    let clean : m.leaked ≡ 0 = omega (arith, tally.exact) in
    let queue : m.pending ≡ [] = nil_of_length m.pending (omega (arith, tally.exact)) in
    let log : m.log ≡ r.1 =
      sym (append-nil m.log) ∙ ap (λ l. m.log ++ l) (sym queue) ∙ h.ordered clean ∙ pushed in
    subst (λ l. OnDisk c (contents (Map.get path files)) l r.0) log
      (covered-OnDisk c (contents (Map.get path files)) r.0 m h clean
        (count_zero_durable small reach counted).1)

-- Batching and backpressure leave no trace: two storages on the same file, with any sizes of the
-- queue below 2 ^ 64, any calls, disks and turns of the flusher, have the same log file if the same
-- entries were admitted and both counters are 0.
pub same_file :
    (c : Codec) (files : Files) (path : Bytes) (n k : ℕ) (calls others : List Call)
    → n < 2 ^ 64
    → k < 2 ^ 64
    → (let r = run c calls (with_config files path n) [] in
        let q = run c others (with_config files path k) [] in
        r.0.pending_count ≡ 0 → q.0.pending_count ≡ 0 → r.1 ≡ q.1 → log_file r.0 ≡ log_file q.0)
same_file c files path n k calls others hn hk zero zero' e =
    let base = contents (Map.get path files) in
    let r = count_zero-OnDisk c files path n calls hn zero in
    let q = count_zero-OnDisk c files path k others hk zero' in
    let same : r.frames ≡ q.frames =
      ap (λ x. x.0) (sym (subst (λ l. Encodes c l r.frames) e r.encoded) ∙ q.encoded) in
    r.file ∙ ap (λ b. base ++ b) same ∙ sym q.file
