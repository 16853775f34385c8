-- ===== src/Tasks/Tally.antt =====
-- The counts that the tasks keep together.
use async_wal_db.Prelude.{
  ℕ, ◌+◌, ◌^◌, ◌≤◌, ◌<◌, ◌≡◌, ap, arith, List, [], ◌∷◌, ◌++◌, Bool, true, false, length,
  length-append,
}
use async_wal_db.Entry.{WalEntry}
use async_wal_db.Tasks.{Shared, Task, Move}

-- The entries that a task has reserved a place for and not yet given back.
abbrev pub slots : Task → ℕ
slots (Task.reserved e) = 1
slots (Task.draining k batch) = length batch
slots (Task.locking k batch) = length batch
slots (Task.writing k n rest) = n + length rest
slots (Task.counting k n) = n
slots t = 0

-- Whether a task holds the mutex.
abbrev pub holds : Task → ℕ
holds (Task.writing k n rest) = 1
holds (Task.counting k n) = 1
holds (Task.notifying k) = 1
holds (Task.leaving k ok) = 1
holds t = 0

-- The entries of the log that a task has written and not yet synced.
abbrev pub unsynced : Task → ℕ
unsynced (Task.writing k n rest) = n
unsynced t = 0

-- The sum of the weights of a list of entries: with a weight for each entry, two lists that have the
-- same sum for all weights have the same entries.
abbrev pub weigh : (WalEntry → ℕ) → List WalEntry → ℕ
weigh w [] = 0
weigh w (e ∷ es) = w e + weigh w es

-- The entries that a task has popped and not yet written.
abbrev pub carried : Task → List WalEntry
carried (Task.draining k batch) = batch
carried (Task.locking k batch) = batch
carried (Task.writing k n rest) = rest
carried t = []

abbrev pub total : (Task → ℕ) → List Task → ℕ
total w [] = 0
total w (t ∷ ts) = w t + total w ts

abbrev pub bit : Bool → ℕ
bit true = 1
bit false = 0

-- The counter is exact, it is within the capacity, the mutex is held once, every entry that was
-- pushed is in one place, and what is not synced is under way.
pub record Tally (m : Shared) (slot hold open' : ℕ) (carry : (WalEntry → ℕ) → ℕ) : Type 0 where
  pub exact : m.pending_count ≡ length m.pending + slot + m.leaked
  pub bounded : m.pending_count ≤ m.max_queue_size
  pub word : m.max_queue_size < 2 ^ 64
  pub mutex : hold ≡ bit m.locked
  pub kept :
      (w : WalEntry → ℕ)
      → weigh w m.pushed ≡ weigh w m.log + weigh w m.pending + carry w + weigh w m.lost
  pub synced : length m.log ≤ m.durable + open' + m.leaked
  pub accounted : length m.lost ≤ m.leaked

weigh-append :
    (w : WalEntry → ℕ) (xs ys : List WalEntry) → weigh w (xs ++ ys) ≡ weigh w xs + weigh w ys
weigh-append w [] ys = omega arith
weigh-append w (x ∷ xs) ys = omega (arith, weigh-append w xs ys)

flags-Tally :
    {m : Shared} {a b d : ℕ} {f : (WalEntry → ℕ) → ℕ} (shutdown handle : Bool)
    → Tally m a b d f
    → Tally (record m { shutdown = shutdown; handle = handle }) a b d f
flags-Tally shutdown handle i = record {
  exact = i.exact;
  bounded = i.bounded;
  word = i.word;
  mutex = i.mutex;
  kept = i.kept;
  synced = i.synced;
  accounted = i.accounted;
}

pub Move-Tally :
    {m m' : Shared} {t t' : Task}
    → Move m t m' t'
    → (a b d : ℕ) (f : (WalEntry → ℕ) → ℕ)
    → Tally m (a + slots t) (b + holds t) (d + unsynced t) (λ w. f w + weigh w (carried t))
    → Tally m' (a + slots t') (b + holds t') (d + unsynced t') (λ w. f w + weigh w (carried t'))
Move-Tally (Move.reserve h e) a b d f i = record {
  exact = omega (arith, i.exact);
  bounded = omega arith;
  word = i.word;
  mutex = i.mutex;
  kept = i.kept;
  synced = i.synced;
  accounted = i.accounted;
}
Move-Tally {m} (Move.push {e}) a b d f i = record {
  exact = omega (arith, i.exact, length-append m.pending (e ∷ []));
  bounded = i.bounded;
  word = i.word;
  mutex = i.mutex;
  kept = λ w.
      omega (arith, i.kept w, weigh-append w m.pending (e ∷ []), weigh-append w m.pushed (e ∷ []));
  synced = i.synced;
  accounted = i.accounted;
}
Move-Tally {m} (Move.pop {k} {batch} e rest p) a b d f i = record {
  exact = omega (arith, i.exact, ap (length {A = WalEntry}) p, length-append batch (e ∷ []));
  bounded = i.bounded;
  word = i.word;
  mutex = i.mutex;
  kept = λ w. omega (arith, i.kept w, ap (weigh w) p, weigh-append w batch (e ∷ []));
  synced = i.synced;
  accounted = i.accounted;
}
Move-Tally {m} (Move.lock h) a b d f i = record {
  exact = omega (arith, i.exact);
  bounded = i.bounded;
  word = i.word;
  mutex = omega (arith, i.mutex, ap bit h);
  kept = i.kept;
  synced = i.synced;
  accounted = i.accounted;
}
Move-Tally {m} (Move.write {k} {n} {e} {rest}) a b d f i = record {
  exact = omega (arith, i.exact);
  bounded = i.bounded;
  word = i.word;
  mutex = i.mutex;
  kept = λ w. omega (arith, i.kept w, weigh-append w m.log (e ∷ []));
  synced = omega (arith, i.synced, length-append m.log (e ∷ []));
  accounted = i.accounted;
}
Move-Tally {m} (Move.write_fails {k} {n} {e} {rest}) a b d f i = record {
  exact = omega (arith, i.exact);
  bounded = i.bounded;
  word = i.word;
  mutex = i.mutex;
  kept = λ w. omega (arith, i.kept w, weigh-append w m.lost (e ∷ rest));
  synced = omega (arith, i.synced);
  accounted = omega (arith, i.accounted, length-append m.lost (e ∷ rest));
}
Move-Tally {m} (Move.sync {k} {n}) a b d f i = record {
  exact = omega (arith, i.exact);
  bounded = i.bounded;
  word = i.word;
  mutex = i.mutex;
  kept = i.kept;
  synced = omega arith;
  accounted = i.accounted;
}
Move-Tally (Move.sync_fails {k} {n}) a b d f i = record {
  exact = omega (arith, i.exact);
  bounded = i.bounded;
  word = i.word;
  mutex = i.mutex;
  kept = i.kept;
  synced = omega (arith, i.synced);
  accounted = omega (arith, i.accounted);
}
Move-Tally (Move.count {k} {n}) a b d f i = record {
  exact = omega (arith, i.exact, i.bounded, i.word);
  bounded = omega (arith, i.exact, i.bounded, i.word);
  word = i.word;
  mutex = i.mutex;
  kept = i.kept;
  synced = i.synced;
  accounted = i.accounted;
}
Move-Tally (Move.unlock) a b d f i = record {
  exact = i.exact;
  bounded = i.bounded;
  word = i.word;
  mutex = ground (arith, i.mutex);
  kept = i.kept;
  synced = i.synced;
  accounted = i.accounted;
}
Move-Tally Move.store a b d f i = flags-Tally _ true i
Move-Tally Move.set_flag a b d f i = flags-Tally true _ i
Move-Tally (Move.take_handle h) a b d f i = flags-Tally _ false i
Move-Tally mv a b d f i = i
