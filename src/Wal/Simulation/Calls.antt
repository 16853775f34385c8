-- ===== src/Wal/Simulation/Calls.antt =====
-- Any sequence of calls of `append` and `flush` on a new storage, with what the flusher does during
-- and between them, as a run of the atomic steps.
use async_wal_db.Prelude.{
  ℕ, ◌≡◌, refl, sym, ap, ◌∙◌, List, [], ◌∷◌, ◌++◌, arith, Option, inl, inr, bytes_eq, bytes_beq_iff,
}
use async_wal_db.Prelude.Map
use async_wal_db.Prelude.Map.{get-insert}
use mathlib.Core.Path.{subst}
use mathlib.Core.List.{append-nil}
use async_wal_db.Errors.{Result, ok}
use async_wal_db.Entry.{Bytes, WalEntry}
use async_wal_db.Frame.{Codec}
use async_wal_db.Wal.{Files, WalStorage, Disk, contents, with_config, background, append, flush}
use async_wal_db.Wal.Simulation.{View, Image, Matches, Stands}
use async_wal_db.Wal.Simulation.Flusher.{begins, ends, Round, background-Round}
use async_wal_db.Wal.Simulation.Appends.{Answers, append-Stands}
use async_wal_db.Wal.Simulation.Flushes.{flush-Stands}
use async_wal_db.Tasks.{Task, System, IsCall, Step, Reach, fresh}

-- A call, with what the flusher and the disk do meanwhile; `passes` is the time between two calls.
pub data Call : Type 0 where
  appends : List (Option Disk) → WalEntry → Call
  flushes : List (Option Disk) → Disk → Call
  passes : Option Disk → Call

-- The entries whose `append` has returned.
abbrev pub admitted : List WalEntry → WalEntry → Result (Unit {0}) → List WalEntry
admitted total e (ok u) = total ++ e ∷ []
admitted total e r = total

unfoldable pub run : Codec → List Call → WalStorage → List WalEntry → WalStorage × List WalEntry
run c [] w total = (w, total)
run c (appends bs e ∷ calls) w total =
    let r = append c bs e w in run c calls r.0 (admitted total e r.1)
run c (flushes bs disk ∷ calls) w total = run c calls (flush c bs disk w).0 total
run c (passes b ∷ calls) w total = run c calls (background c b w) total

module _ {v : View} where
  answered :
      (total : List WalEntry) (e : WalEntry) (w : WalStorage) (r : Result (Unit {0}))
      → Answers v total e (w, r)
      → Stands v (admitted total e r) w []
  answered total e w (ok u) s = ends s
  answered total e w r s = ends s

  passed :
      {total : List WalEntry} {w w' : WalStorage} → Round v total w w' [] → Stands v total w' []
  passed {total = total} {w = w} {w' = w'} r = subst (λ x. Stands v total w' x) (alone r) r.stands
    where
      alone : (r : Round v total w w' []) → r.call' ≡ []
      alone r = elim r.woken [ inl (q, n) ↦ q | inr q ↦ q ]

  run-Stands :
      (calls : List Call) (w : WalStorage) (total : List WalEntry)
      → Stands v total w []
      → (let r = run v.codec calls w total in Stands v r.1 r.0 [])
  unfolding run
  run-Stands [] w total s = s
  run-Stands (appends bs e ∷ calls) w total s =
      let r = append v.codec bs e w in
      run-Stands calls r.0 (admitted total e r.1) (
        answered total e r.0 r.1
          (append-Stands e bs w (Task.appending e) (inl refl) (begins _ (IsCall.append e) s)))
  run-Stands (flushes bs disk ∷ calls) w total s =
      run-Stands calls (flush v.codec bs disk w).0 total
        (ends (flush-Stands bs disk w (begins _ IsCall.flush s)))
  run-Stands (passes b ∷ calls) w total s =
      run-Stands calls (background v.codec b w) total (passed (background-Round b s))

-- A storage whose flusher has been started.
opened :
    (c : Codec) (files : Files) (path : Bytes) (n : ℕ)
    → Stands
        (record { codec = c; base = contents (Map.get path files); max_queue_size = n })
        []
        (with_config files path n)
        []
unfolding with_config
opened c files path n =
    let base = contents (Map.get path files) in
    let same : contents (Map.get path (Map.insert path base files)) ≡ base =
      ap contents (get-insert path path base files) ∙ rw ((bytes_beq_iff path path).1 refl) in
    record {
      system = record { shared = fresh n; tasks = Task.selecting ∷ [] };
      reach = Reach.later Reach.start (Step.call Task.selecting IsCall.start_flusher);
      matches = record {
        queue = refl;
        count = refl;
        size = refl;
        image = subst (λ b. Image c base 0 [] b) (sym (append-nil _ ∙ same)) Image.origin;
        synced = record {
          entries = [];
          bytes = base;
          entries_after = [];
          bytes_after = [];
          leaked = 0;
          image = Image.origin;
          log = refl;
          file = same ∙ sym (append-nil base);
          entries_covered = refl;
          bytes_covered = refl;
          leaked_before = omega arith;
        };
        ordered = λ e. refl;
      };
      free = refl;
      running = refl;
      pushed = refl;
      before = [];
      after = [];
      tasks = refl;
    }

-- Whatever calls are made on a new storage, and whatever the flusher, the scheduler and the disk do:
-- the tasks can reach a state in which the queue, the counter and the entries pushed are those of
-- the storage after the calls, and the log has the entries whose frames the file and the buffer
-- hold, behind what the file held before and apart from first parts of frames that failed batches
-- have left.
pub run-Reach :
    (c : Codec) (files : Files) (path : Bytes) (n : ℕ) (calls : List Call)
    → (let r = run c calls (with_config files path n) [] in
        (s : System) × Reach n s
        × (s.shared.pushed ≡ r.1)
        × Matches c (contents (Map.get path files)) r.0 s.shared)
run-Reach c files path n calls =
    let s = run-Stands calls (with_config files path n) [] (opened c files path n) in
    (s.system, s.reach, s.pushed, s.matches)
