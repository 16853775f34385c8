-- ===== src/Wal/Simulation/Appends.antt =====
-- A call of `append` as a run of steps of its task and of the flusher.
use async_wal_db.Prelude.{
  ◌+◌, ◌≤◌, ◌≡◌, refl, sym, ap, ◌∙◌, arith, List, [], ◌∷◌, ◌++◌, true, false, Option, leb,
  Bool-cases, inl, inr, ◌⊎◌,
}
use mathlib.Core.Path.{subst}
use mathlib.Core.List.{append_assoc}
use async_wal_db.Errors.{Result, ok}
use async_wal_db.Entry.{WalEntry}
use async_wal_db.Wal.{WalStorage, Disk, background, pushed, append}
use async_wal_db.Wal.Simulation.{View, Stands}
use async_wal_db.Wal.Simulation.Drains.{at}
use async_wal_db.Wal.Simulation.Flusher.{reads, Round, background-Round}
use async_wal_db.Tasks.{Task, Move}
use async_wal_db.Tasks.Runs.{reach_at}
use async_wal_db.Tasks.Safety.{Reach-size}

-- An `append` that returns has its entry in the queue; one that does not return waits.
abbrev pub Answers : View → List WalEntry → WalEntry → WalStorage × Result (Unit {0}) → Type 0
Answers v total e (w, ok u) = Stands v (total ++ e ∷ []) w (Task.appended ∷ [])
Answers v total e (w, r) = Stands v total w (Task.waiting e ∷ [])

-- Where the task stands at the head of its loop: it waits only while the queue is full.
abbrev pub Waits : WalStorage → WalEntry → Task → Type 0
Waits w e t = (t ≡ Task.appending e) ⊎ ((t ≡ Task.waiting e) × (w.max_queue_size ≤ w.pending_count))

Stands-size :
    {v : View} {total : List WalEntry} {w : WalStorage} {call : List Task}
    → Stands v total w call
    → w.max_queue_size ≡ v.max_queue_size
Stands-size s = s.matches.size ∙ Reach-size s.reach

module _ {v : View} {total : List WalEntry} (e : WalEntry) where
  sleeps :
      (w : WalStorage) (t : Task)
      → leb w.max_queue_size w.pending_count ≡ true
      → Waits w e t
      → Stands v total w (t ∷ [])
      → Stands v total w (Task.waiting e ∷ [])
  sleeps w t full (inl q) s =
      let s1 = subst (λ x. Stands v total w (x ∷ [])) q s in
      let s2 = reads s1 Move.load in
      reads (reads s2 (Move.no_space (ground (arith, s1.matches.count, s2.matches.size))))
        Move.register
  sleeps w t full (inr (q, n)) s = subst (λ x. Stands v total w (x ∷ [])) q s

  -- The two writes to the shared state: the count, and then the queue.
  pushes :
      (w : WalStorage)
      → leb w.max_queue_size w.pending_count ≡ false
      → (s : Stands v total w (Task.appending e ∷ []))
      → Stands v (total ++ e ∷ []) (pushed w e) (Task.appended ∷ [])
  unfolding pushed
  pushes w room s =
      let s2 = reads s Move.load in
      let m = s2.system.shared in
      let h = s2.matches in
      let back = s2.before ++ Task.selecting ∷ s2.after in
      let reserved =
        reach_at [] back s2.reach s2.tasks (
          Move.reserve (ground (arith, s.matches.count, h.size)) (sym h.count ∙ s.matches.count)) in
      record {
        system =
            at
              (record m {
                pending_count = s.system.shared.pending_count + 1;
                pending = m.pending ++ e ∷ [];
                pushed = m.pushed ++ e ∷ [];
              })
              (Task.appended ∷ back);
        reach = reach_at [] back reserved refl Move.push;
        matches = record {
          queue = ap (λ l. l ++ e ∷ []) h.queue;
          count = ap (λ n. n + 1) s.matches.count;
          size = h.size;
          image = h.image;
          synced = record {
            entries = h.synced.entries;
            bytes = h.synced.bytes;
            entries_after = h.synced.entries_after;
            bytes_after = h.synced.bytes_after;
            leaked = h.synced.leaked;
            image = h.synced.image;
            log = h.synced.log;
            file = h.synced.file;
            entries_covered = h.synced.entries_covered;
            bytes_covered = h.synced.bytes_covered;
            leaked_before = h.synced.leaked_before;
          };
          ordered = λ z.
              sym (append_assoc m.log m.pending (e ∷ [])) ∙ ap (λ l. l ++ e ∷ []) (h.ordered z);
        };
        free = s2.free;
        running = s2.running;
        pushed = ap (λ l. l ++ e ∷ []) s2.pushed;
        before = s2.before;
        after = s2.after;
        tasks = refl;
      }

  -- With space the task is at the head of its loop.
  admits :
      (w : WalStorage) (t : Task)
      → leb w.max_queue_size w.pending_count ≡ false
      → Waits w e t
      → Stands v total w (t ∷ [])
      → Stands v (total ++ e ∷ []) (pushed w e) (Task.appended ∷ [])
  admits w t room (inl q) s = pushes w room (subst (λ x. Stands v total w (x ∷ [])) q s)
  admits w t room (inr (q, n)) s = absurd (ground arith)

  -- A round of the flusher, from the side of a task that waits.
  rouses :
      (w w' : WalStorage)
      → leb w.max_queue_size w.pending_count ≡ true
      → w'.max_queue_size ≡ w.max_queue_size
      → Round v total w w' (Task.waiting e ∷ [])
      → (t : Task) × Waits w' e t × Stands v total w' (t ∷ [])
  rouses w w' full same r = elim r.woken [
    | inl (q, n) ↦ (
      Task.waiting e,
      inr (refl, ground (arith, same, n)),
      subst (λ x. Stands v total w' x) q r.stands,
    )
    | inr q ↦ (Task.appending e, inl refl, subst (λ x. Stands v total w' x) q r.stands)
  ]

  -- Each call of `append` is a run of steps: the task has returned where the call does, and waits
  -- where it does not.
  pub append-Stands :
      (bs : List (Option Disk)) (w : WalStorage) (t : Task)
      → Waits w e t
      → Stands v total w (t ∷ [])
      → Answers v total e (append v.codec bs e w)
  unfolding append
  append-Stands [] w t h s = elim (Bool-cases (leb w.max_queue_size w.pending_count)) [
    | inl full ↦ rw full (sleeps w t full h s)
    | inr room ↦ rw room (admits w t room h s)
  ]
  append-Stands (b ∷ bs) w t h s = elim (Bool-cases (leb w.max_queue_size w.pending_count)) [
    | inl full ↦
        let r = background-Round b (sleeps w t full h s) in
        let (t', h', s') =
          rouses w (background v.codec b w) full (Stands-size r.stands ∙ sym (Stands-size s)) r in
        rw full (append-Stands bs (background v.codec b w) t' h' s')
    | inr room ↦ rw room (admits w t room h s)
  ]
