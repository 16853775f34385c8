-- ===== src/Workers/Demo.antt =====
-- What src/main.rs does, on disks that do not fail.
use async_wal_db.Prelude.{
  ℕ, ◌-◌, ◌^◌, ◌≤◌, ◌<◌, ◌≡◌, ◌≢◌, refl, sym, ap, ◌∙◌, arith, List, [], ◌∷◌, ◌++◌, false, none,
  some, length, drop, All, bytes_eq, bytes_beq, bytes_beq_iff, Bool-cases, inl, inr,
}
use async_wal_db.Prelude.Map
use async_wal_db.Errors.{ok, codes}
use async_wal_db.Entry.{Bytes, WalEntry, tx_id_of}
use async_wal_db.Frame.{Codec, IsLawful}
use async_wal_db.Wal.{Files, contents}
use async_wal_db.Wal.Encode.{Encodes}
use async_wal_db.Recovery.{RecoveryStats}
use async_wal_db.Database.{Database, opened, recover_from_log, ◌>>=◌, ◌>>◌}
use async_wal_db.Database.Chain.{>>=-ok, recover_from_log-wal}
use async_wal_db.Checkpoint
use async_wal_db.Checkpoint.Scheduler.{scheduler}
use async_wal_db.Checkpoint.Untouched.{Untouched-Holds, scheduler-Untouched}
use async_wal_db.Session.Start.{
  recover_from_log-Consistent, recover_from_log-word, new-idle, new-size, new-file,
}
use async_wal_db.Session.Checkpointed.{get-scheduler}
use async_wal_db.Workers.{Beat, interleave}
use async_wal_db.Workers.Values.{any_will_set, promised}
use async_wal_db.Workers.Ready.{Serializes, SerializesCommits, IsJob, IsReady}
use async_wal_db.Workers.Counting.{left_at, times}
use async_wal_db.Workers.Turns.{IsCalmBeat}
use async_wal_db.Workers.Finished.{interleave-Finished}
use async_wal_db.Workers.Programs.{
  insert, demo_tasks, scheduled, join_all, last_checkpoint, open_demo, main,
}
use async_wal_db.Workers.Benchmarks.{join_all-IsDone}

-- The value that the programs write to a key.
abbrev pub numbered_value : Bytes → Bytes
numbered_value key = codes "value" ++ drop 3 key

abbrev pub key1 : Bytes
key1 = codes "key1"

abbrev pub key2 : Bytes
key2 = codes "key2"

-- The two operations of `main`.
abbrev pub demo_op : Bytes → WalEntry
demo_op key = insert key (numbered_value key)

pub demo_tasks-IsReady :
    (c : Codec)
    → Serializes c (demo_op key1)
    → Serializes c (demo_op key2)
    → All (IsReady c numbered_value 1) demo_tasks
demo_tasks-IsReady c w1 w2 = ((one key1 w1, tt), ((one key2 w2, tt), tt))
  where
    one : (key : Bytes) → Serializes c (demo_op key) → IsJob c numbered_value 1 (demo_op key ∷ [])
    one key w = record { each = (record { gives = refl; writes = w }, tt); short = omega arith }

others_not_set : (k : Bytes) → k ≢ key1 → k ≢ key2 → any_will_set k demo_tasks ≡ false
others_not_set k n1 n2 = elim (Bool-cases (bytes_beq key1 k)) [
  | inl is_key1 ↦ absurd (n1 (sym ((bytes_beq_iff key1 k).0 is_key1)))
  | inr not_key1 ↦ elim (Bool-cases (bytes_beq key2 k)) [
    | inl is_key2 ↦ absurd (n2 (sym ((bytes_beq_iff key2 k).0 is_key2)))
    | inr not_key2 ↦ ground (arith, not_key1, not_key2)
  ]
]

-- `main` on an intact log, of numbers below 2 ^ 64 - 1 and of fewer than 2 ^ 64 bytes, that it
-- recovers without an error, with any checkpoints of the scheduler before the tasks and any fair
-- order of the calls of its two tasks, where their entries can be serialized and no disk fails: both
-- tasks are done, nothing is pending, `key1` and `key2` have their values and every other key has the
-- one that was recovered; and then `main` makes its checkpoint, and returns what that comes to.
pub main-lem :
    {c : Codec}
    → IsLawful c
    → SerializesCommits c
    → Serializes c (demo_op key1)
    → Serializes c (demo_op key2)
    → (files : Files) (n : ℕ) (es : List WalEntry) (st : RecoveryStats)
      (ticks : List Checkpoint.Files) (beats : List Beat) (last : Checkpoint.Files)
    → Encodes c es (contents (Map.get (codes "demo_wal.log") files))
    → length (contents (Map.get (codes "demo_wal.log") files)) < 2 ^ 64
    → All (λ e. tx_id_of e < 2 ^ 64 - 1) es
    → n < 2 ^ 64
    → (recover_from_log c opened (open_demo files n)).1 ≡ ok st
    → All IsCalmBeat beats
    → ((j : ℕ) → left_at j demo_tasks ≤ times j beats)
    → (after : Database) × (main c opened ticks beats last (open_demo files n)
        ≡ last_checkpoint c last after)
      × (after.wal.pending ≡ [])
      × (Map.get key1 after.store ≡ some (codes "value1"))
      × (Map.get key2 after.store ≡ some (codes "value2"))
      × ((k : Bytes)
          → k ≢ key1
          → k ≢ key2
          → Map.get k after.store
            ≡ Map.get k (recover_from_log c opened (open_demo files n)).0.store)
unfolding main open_demo scheduled
main-lem {c} l markers w1 w2 files n es st ticks beats last enc small below word done calm fair =
    let db = open_demo files n in
    let db1 = (recover_from_log c opened db).0 in
    let k =
      recover_from_log-Consistent files n (codes "demo_wal.log") l es st enc small below done in
    let db2 = scheduler c ticks db1 in
    let u = scheduler-Untouched c ticks db1 in
    let same = recover_from_log-wal c opened db in
    let pending : db1.wal.pending ≡ [] =
      ap (λ w. w.pending) same ∙ new-idle files n (codes "demo_wal.log") in
    let size : db2.wal.max_queue_size ≡ 10_000 =
      u.same_size ∙ ap (λ w. w.max_queue_size) same ∙ new-size files n (codes "demo_wal.log") in
    let there : Map.get db1.wal.path db1.wal.files ≢ none =
      λ e. cc (e, new-file files n (codes "demo_wal.log")) in
    let looks = get-scheduler l ticks db1 es k pending there in
    let d =
      interleave-Finished c numbered_value 1 markers beats demo_tasks db2 es calm
        (record {
          holds = Untouched-Holds u k.holds;
          writable = k.writable;
          counter = omega (
            arith,
            u.same_counter,
            recover_from_log-word files n (codes "demo_wal.log") l es enc small word,
          );
        })
        (demo_tasks-IsReady c w1 w2) (omega (arith, size))
        (omega (arith, ap (length {A = WalEntry}) (u.same_pending ∙ pending))) fair in
    (
      d.after,
      >>=-ok (recover_from_log c opened)
            (λ stats.
              scheduled c ticks
              >> (interleave c beats demo_tasks >>= λ ws. join_all ws >> last_checkpoint c last))
            db db1 st (ap (λ r. (db1, r)) done)
          ∙ >>=-ok (scheduled c ticks)
              (λ u. interleave c beats demo_tasks >>= λ ws. join_all ws >> last_checkpoint c last)
              db1 db2 tt refl
          ∙ >>=-ok (interleave c beats demo_tasks) (λ ws. join_all ws >> last_checkpoint c last) db2
              d.after d.workers d.returned
          ∙ >>=-ok (join_all d.workers) (λ u. last_checkpoint c last) d.after d.after tt
              (join_all-IsDone d.workers d.after d.done),
      d.emptied,
      d.values key1,
      d.values key2,
      λ k n1 n2.
          d.values k
          ∙ ap (λ b. promised numbered_value k b db2.store) (others_not_set k n1 n2)
          ∙ looks k,
    )
