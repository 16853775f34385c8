-- ===== src/Workers/Finished.antt =====
-- Tasks in any order, until all are done: no call fails or waits, and the keys have their values.
use async_wal_db.Prelude.{
  ℕ, zero, suc, ◌*◌, ◌≤◌, ◌<◌, ◌≡◌, refl, sym, ap, ◌∙◌, arith, List, [], ◌∷◌, true, false, bytes_eq,
  ◌||◌, length, All, nil_of_length,
}
use async_wal_db.Prelude.Map
use async_wal_db.Errors.{ok}
use async_wal_db.Entry.{Bytes, WalEntry}
use async_wal_db.Frame.{Codec}
use async_wal_db.Database.{Database}
use async_wal_db.Workers.{Worker, idle, working, Beat, interleave}
use async_wal_db.Workers.Values.{any_will_set, promised}
use async_wal_db.Workers.Ready.{SerializesCommits, IsReady, calls_left, Runs}
use async_wal_db.Workers.Counting.{left_at, times, or_false}
use async_wal_db.Workers.Grown.{Grows}
use async_wal_db.Workers.Turns.{all_held, IsCalmBeat, interleave-Interleaved}

-- No call is left.
abbrev pub IsDone : Worker → Type 0
IsDone (idle []) = Unit
IsDone w = false ≡ true

all_left-IsDone : (ws : List Worker) → ((j : ℕ) → left_at j ws ≡ 0) → All IsDone ws
all_left-IsDone [] h = tt
all_left-IsDone (w ∷ ws) h = (done w (h zero), all_left-IsDone ws (λ j. h (suc j)))
  where
    done : (w : Worker) → calls_left w ≡ 0 → IsDone w
    done (idle []) e = tt
    done (idle (ops ∷ jobs)) e = absurd (omega arith)
    done (working tx ops jobs) e = absurd (omega arith)

done_holds_none : (ws : List Worker) → All IsDone ws → all_held ws ≡ 0
done_holds_none [] h = refl
done_holds_none (idle [] ∷ ws) h = omega (arith, done_holds_none ws h.1)
done_holds_none (idle (ops ∷ jobs) ∷ ws) h = absurd (cc (h.0))
done_holds_none (working tx ops jobs ∷ ws) h = absurd (cc (h.0))

done_sets_none : (k : Bytes) (ws : List Worker) → All IsDone ws → any_will_set k ws ≡ false
done_sets_none k [] h = refl
done_sets_none k (idle [] ∷ ws) h = done_sets_none k ws h.1
done_sets_none k (idle (ops ∷ jobs) ∷ ws) h = absurd (cc (h.0))
done_sets_none k (working tx ops jobs ∷ ws) h = absurd (cc (h.0))

-- What the tasks leave when all of them are done.
pub record Finished (c : Codec) (value : Bytes → Bytes) (beats : List Beat) (ws : List Worker)
    (db : Database) (old : List WalEntry) : Type 0 where
  pub after : Database
  pub workers : List Worker
  pub total : List WalEntry
  pub returned : interleave c beats ws db ≡ (after, ok workers)
  pub done : All IsDone workers
  pub runs : Runs c total after
  pub emptied : after.wal.pending ≡ []
  pub values : (k : Bytes) → Map.get k after.store ≡ promised value k (any_will_set k ws) db.store
  pub grown : Grows value old total ws workers
  pub set_all : (k : Bytes) → any_will_set k workers ≡ false

-- Tasks with transactions of at most `m` inserts, each key always with the same value, whose entries
-- can be serialized, on a log that holds all that was appended, on disks that do not fail, and with
-- room in the queue for one transaction of each task: in every order of their calls in which each
-- task gets as many turns as it has calls, none of them fails or waits, all are done, nothing is
-- pending, every key that was inserted has its value, and no other key has changed.
pub interleave-Finished :
    (c : Codec) (value : Bytes → Bytes) (m : ℕ)
    → SerializesCommits c
    → (beats : List Beat) (ws : List Worker) (db : Database) (total : List WalEntry)
    → All IsCalmBeat beats
    → Runs c total db
    → All (IsReady c value m) ws
    → length ws * m < db.wal.max_queue_size
    → length db.wal.pending ≤ all_held ws
    → ((j : ℕ) → left_at j ws ≤ times j beats)
    → Finished c value beats ws db total
interleave-Finished c value m markers beats ws db total calm runs r size q fair =
    let d = interleave-Interleaved c value m markers beats ws db total calm runs r size q in
    let done = all_left-IsDone d.workers (λ j. omega (arith, d.less j, fair j)) in
    record {
      after = d.after;
      workers = d.workers;
      total = d.total;
      returned = d.returned;
      done = done;
      runs = d.runs;
      emptied =
          nil_of_length d.after.wal.pending
            (omega (arith, d.queued, done_holds_none d.workers done));
      values = λ k.
          ap (λ b. promised value k (b || false) d.after.store)
            (sym (done_sets_none k d.workers done))
          ∙ d.kept k
          ∙ ap (λ b. promised value k b db.store) (or_false (any_will_set k ws));
      grown = d.grown;
      set_all = λ k. done_sets_none k d.workers done;
    }
