-- ===== src/Workers/Turns.antt =====
-- Tasks in any order: no call fails or waits, and what the keys will have stays the same.
use mathlib.Core.Path.{subst}
use async_wal_db.Prelude.{
  ℕ, zero, suc, ◌+◌, ◌-◌, ◌*◌, ◌^◌, ◌≤◌, ◌<◌, ◌≡◌, refl, sym, ap, ◌∙◌, arith, List, [], ◌∷◌, Bool,
  false, ◌||◌, length, All,
}
use async_wal_db.Errors.{ok}
use async_wal_db.Entry.{Bytes, WalEntry}
use async_wal_db.Frame.{Codec}
use async_wal_db.Wal.{background}
use async_wal_db.Wal.Durable.{IsFine}
use async_wal_db.Wal.Holds.{background-Holds}
use async_wal_db.Wal.Room.{background-Shorter}
use async_wal_db.Database.{Database, pure}
use async_wal_db.Database.Chain.{>>=-ok}
use async_wal_db.Transaction.{World}
use async_wal_db.Session.Open.{IsCalm}
use async_wal_db.Workers.{Worker, idle, work, turn, Beat, calls, passes, passed, interleave}
use async_wal_db.Workers.Values.{will_set, any_will_set, promised}
use async_wal_db.Workers.Logged.{IsLogged, IsLogged-append}
use async_wal_db.Workers.Grown.{
  Grows, all-IsLogged, same-Grown, Grown-trans, first-Grown, behind-Grown,
}
use async_wal_db.Workers.Ready.{SerializesCommits, IsReady, held, Runs}
use async_wal_db.Workers.Progress.{work-Worked}
use async_wal_db.Workers.Counting.{or_assoc, or_swap, left_at, one_at, times, first, behind}

abbrev pub all_held : List Worker → ℕ
all_held [] = 0
all_held (w ∷ ws) = held w + all_held ws

-- No disk fails, and the time is a `u64`.
abbrev pub IsCalmBeat : Beat → Type 0
IsCalmBeat (calls i world) = IsCalm world × (world.timestamp < 2 ^ 64)
IsCalmBeat (passes b) = IsFine b

module _ (c : Codec) (value : Bytes → Bytes) (m : ℕ) where
  held_le : (w : Worker) → IsReady c value m w → held w ≤ m
  held_le (idle jobs) r = omega arith
  held_le w r = omega (arith, r.short)

  all_held_le : (ws : List Worker) → All (IsReady c value m) ws → all_held ws ≤ length ws * m
  all_held_le [] r = omega arith
  all_held_le (w ∷ ws) r = let first = held_le w r.0 in let rest = all_held_le ws r.1 in grind arith

  -- A call has returned, with the tasks that go on.
  pub record Turned (world : World) (i others : ℕ) (ws : List Worker) (db : Database)
      (old : List WalEntry) : Type 0 where
    pub after : Database
    pub workers : List Worker
    pub total : List WalEntry
    pub returned : turn c world i ws db ≡ (after, ok workers)
    pub runs : Runs c total after
    pub ready : All (IsReady c value m) workers
    pub less : (j : ℕ) → left_at j workers ≡ left_at j ws - one_at j i
    pub as_many : length workers ≡ length ws
    pub queued : length after.wal.pending ≤ all_held workers + others
    pub same_size : after.wal.max_queue_size ≡ db.wal.max_queue_size
    pub kept :
        (k : Bytes) (later : Bool)
        → promised value k (any_will_set k workers || later) after.store
          ≡ promised value k (any_will_set k ws || later) db.store
    pub grown : Grows value old total ws workers

module _ (c : Codec) (value : Bytes → Bytes) (m : ℕ) (markers : SerializesCommits c) where
  turn-Turned :
      (world : World) (i others : ℕ) (ws : List Worker) (db : Database) (total : List WalEntry)
      → IsCalm world
      → world.timestamp < 2 ^ 64
      → Runs c total db
      → All (IsReady c value m) ws
      → length db.wal.pending < db.wal.max_queue_size
      → length db.wal.pending ≤ all_held ws + others
      → Turned c value m world i others ws db total
  unfolding turn pure
  turn-Turned world i others [] db total calm clock runs r room q = record {
    after = db;
    workers = [];
    total = total;
    returned = refl;
    runs = runs;
    ready = tt;
    less = λ j. omega arith;
    as_many = refl;
    queued = q;
    same_size = refl;
    kept = λ k later. refl;
    grown = same-Grown total _ _ (λ k. refl) (λ l. l);
  }
  turn-Turned world zero others (w ∷ ws) db total calm clock runs r room q =
      let d =
        work-Worked c value m (all_held ws + others) world db total calm runs clock markers room w
          r.0 (omega arith) in
      record {
        after = d.after;
        workers = d.worker ∷ ws;
        total = d.total;
        returned = >>=-ok (work c world w) (λ w'. pure (w' ∷ ws)) db d.after d.worker d.returned;
        runs = d.runs;
        ready = (d.ready, r.1);
        less = first d.worker w ws d.one_less;
        as_many = refl;
        queued = omega (arith, d.queued);
        same_size = d.same_size;
        kept = λ k later.
            ap (λ b. promised value k b d.after.store) (or_assoc (will_set k d.worker) _ _)
            ∙ d.kept k (any_will_set k ws || later)
            ∙ ap (λ b. promised value k b db.store) (sym (or_assoc (will_set k w) _ _));
        grown =
            first-Grown (λ k. any_will_set k ws)
              (subst (λ t. All (IsLogged total) ws → All (IsLogged t) ws) (sym d.grown.extends)
                (all-IsLogged value total d.grown.more ws))
              d.grown;
      }
  turn-Turned world (suc i) others (w ∷ ws) db total calm clock runs r room q =
      let d =
        turn-Turned world i (held w + others) ws db total calm clock runs r.1 room (omega arith) in
      record {
        after = d.after;
        workers = w ∷ d.workers;
        total = d.total;
        returned =
            >>=-ok (turn c world i ws) (λ ws'. pure (w ∷ ws')) db d.after d.workers d.returned;
        runs = d.runs;
        ready = (r.0, d.ready);
        less = behind w d.workers ws i d.less;
        as_many = ap suc d.as_many;
        queued = omega (arith, d.queued);
        same_size = d.same_size;
        kept = λ k later.
            ap (λ b. promised value k b d.after.store) (or_swap (will_set k w) _ _)
            ∙ d.kept k (will_set k w || later)
            ∙ ap (λ b. promised value k b db.store) (sym (or_swap (will_set k w) _ _));
        grown =
            behind-Grown (λ k. will_set k w)
              (subst (λ t. IsLogged total w → IsLogged t w) (sym d.grown.extends)
                (IsLogged-append value total d.grown.more w))
              d.grown;
      }

  -- After any turns: the tasks that are left, and what has become of the database.
  pub record Interleaved (beats : List Beat) (ws : List Worker) (db : Database)
      (old : List WalEntry) : Type 0 where
    pub after : Database
    pub workers : List Worker
    pub total : List WalEntry
    pub returned : interleave c beats ws db ≡ (after, ok workers)
    pub runs : Runs c total after
    pub queued : length after.wal.pending ≤ all_held workers
    pub less : (j : ℕ) → left_at j workers ≡ left_at j ws - times j beats
    pub kept :
        (k : Bytes)
        → promised value k (any_will_set k workers || false) after.store
          ≡ promised value k (any_will_set k ws || false) db.store
    pub grown : Grows value old total ws workers

  pub interleave-Interleaved :
      (beats : List Beat) (ws : List Worker) (db : Database) (total : List WalEntry)
      → All IsCalmBeat beats
      → Runs c total db
      → All (IsReady c value m) ws
      → length ws * m < db.wal.max_queue_size
      → length db.wal.pending ≤ all_held ws
      → Interleaved beats ws db total
  unfolding interleave passed pure
  interleave-Interleaved [] ws db total calm runs r size q = record {
    after = db;
    workers = ws;
    total = total;
    returned = refl;
    runs = runs;
    queued = q;
    less = λ j. omega arith;
    kept = λ k. refl;
    grown = same-Grown total _ _ (λ k. refl) (λ l. l);
  }
  interleave-Interleaved (calls i world ∷ beats) ws db total calm runs r size q =
      let d =
        turn-Turned world i 0 ws db total calm.0.0 calm.0.1 runs r
          (omega (arith, all_held_le c value m ws r)) (omega arith) in
      let rest =
        interleave-Interleaved beats d.workers d.after d.total calm.1 d.runs d.ready
          (rw (d.as_many, d.same_size) size) (omega (arith, d.queued)) in
      record {
        after = rest.after;
        workers = rest.workers;
        total = rest.total;
        returned =
            >>=-ok (turn c world i ws) (interleave c beats) db d.after d.workers d.returned
            ∙ rest.returned;
        runs = rest.runs;
        queued = rest.queued;
        less = λ j. omega (arith, rest.less j, d.less j);
        kept = λ k. rest.kept k ∙ d.kept k false;
        grown = Grown-trans d.grown rest.grown;
      }
  interleave-Interleaved (passes b ∷ beats) ws db total calm runs r size q =
      let after = record db { wal = background c b db.wal } in
      let s = background-Shorter c b db.wal in
      let rest =
        interleave-Interleaved beats ws after total calm.1
          (record {
            holds = background-Holds c b db.wal total calm.0 runs.holds runs.writable;
            writable = runs.writable;
            counter = runs.counter;
          })
          r (rw (s.same_size) size) (omega (arith, s.shorter)) in
      record {
        after = rest.after;
        workers = rest.workers;
        total = rest.total;
        returned =
            >>=-ok (passed c b) (λ u. interleave c beats ws) db after tt refl ∙ rest.returned;
        runs = rest.runs;
        queued = rest.queued;
        less = rest.less;
        kept = rest.kept;
        grown = rest.grown;
      }
