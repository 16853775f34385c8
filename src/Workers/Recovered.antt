-- ===== src/Workers/Recovered.antt =====
-- What a new process recovers after tasks in any order, all of them done.
use mathlib.Core.List.{foldl, append-nil}
use async_wal_db.Prelude.{
  ℕ, ◌*◌, ◌^◌, ◌≤◌, ◌<◌, ◌≡◌, refl, sym, ap, ◌∙◌, List, [], ◌∷◌, true, false, Bool-cases, inl, inr,
  length, All, arith, bytes_eq,
}
use async_wal_db.Prelude.Map
use async_wal_db.Entry.{Bytes, WalEntry}
use async_wal_db.Frame.{Codec, IsLawful}
use async_wal_db.Wal.{log_file}
use async_wal_db.Recovery.Serial.{Committed, serial, recover-serial}
use async_wal_db.Store.{redo}
use async_wal_db.Database
use async_wal_db.Database.{Database}
use async_wal_db.Session.Start.{new-store}
use async_wal_db.Session.Closing.{recovered, recovered-store}
use async_wal_db.Workers.{Worker, idle, working, Beat, interleave}
use async_wal_db.Workers.Values.{sets_any, any_will_set, promised, redo-promised}
use async_wal_db.Workers.Logged.{IsPlain, IsLogged}
use async_wal_db.Workers.Replayed.{serial_sets, serial_sets_none, serial-Gives}
use async_wal_db.Workers.Ready.{SerializesCommits, IsReady, Runs}
use async_wal_db.Workers.Counting.{left_at, times, or_false}
use async_wal_db.Workers.Turns.{all_held, IsCalmBeat}
use async_wal_db.Workers.Finished.{Finished, interleave-Finished}

-- The task has not begun.
abbrev pub IsFresh : Worker → Type 0
IsFresh (idle jobs) = Unit
IsFresh w = false ≡ true

fresh-IsLogged :
    (total : List WalEntry) (ws : List Worker) → All IsFresh ws → All (IsLogged total) ws
fresh-IsLogged total [] h = tt
fresh-IsLogged total (idle jobs ∷ ws) h = (tt, fresh-IsLogged total ws h.1)
fresh-IsLogged total (working tx ops jobs ∷ ws) h = absurd (cc (h.0))

fresh_holds_none : (ws : List Worker) → All IsFresh ws → all_held ws ≡ 0
fresh_holds_none [] h = refl
fresh_holds_none (idle jobs ∷ ws) h = omega (arith, fresh_holds_none ws h.1)
fresh_holds_none (working tx ops jobs ∷ ws) h = absurd (cc (h.0))

module _ {c : Codec} {value : Bytes → Bytes} {beats : List Beat} {ws : List Worker} {db : Database}
    (d : Finished c value beats ws db []) (fresh : All IsFresh ws) where
  -- The replay of the log sets the keys that the tasks were to set.
  sets_any-serial :
      (k : Bytes) (ids : List ℕ)
      → Committed d.total ids
      → sets_any k (serial ids d.total) ≡ any_will_set k ws
  sets_any-serial k ids committed = elim (Bool-cases (any_will_set k ws)) [
    | inl set ↦
        let l = d.grown.committed k (fresh-IsLogged [] ws fresh) set (d.set_all k) in
        serial_sets k l.id ids d.total (committed.exact l.id ∙ l.committed) l.changed ∙ sym set
    | inr unset ↦
        serial_sets_none k ids d.total (
          ap (sets_any k) d.grown.extends ∙ elim (Bool-cases (sets_any k d.grown.more)) [
            | inl added ↦ absurd (cc (d.grown.no_others k added, unset))
            | inr not_added ↦ not_added
          ])
        ∙ sym unset
  ]

  Finished-recovered :
      IsLawful c
      → (n : ℕ) → db.store ≡ []
      → length (log_file d.after.wal) < 2 ^ 64
      → (k : Bytes) → Map.get k (recovered c n d.after.wal).store ≡ Map.get k d.after.store
  Finished-recovered l n blank small k =
      let h = d.runs.holds in
      let all : h.logged ≡ d.total = sym (append-nil h.logged) ∙ rw (sym d.emptied) h.split in
      let new = Database.new d.after.wal.files n d.after.wal.path in
      let (ids, committed, replayed) =
        recover-serial l (record { store = new.store; next_tx_id = new.next_tx_id }) d.total
          (log_file d.after.wal) (rw (sym all) h.encoded) small in
      let all_plain : All (IsPlain value) d.total = rw (d.grown.extends) d.grown.plain in
      ap (Map.get k) (
        recovered-store c n d.after.wal
        ∙ replayed
        ∙ ap (λ s. foldl redo s (serial ids d.total))
            (new-store d.after.wal.files n d.after.wal.path ∙ sym blank))
      ∙ redo-promised value k (serial ids d.total) false db.store
          (serial-Gives value ids d.total all_plain)
      ∙ ap (λ b. promised value k b db.store)
          (or_false (sets_any k (serial ids d.total)) ∙ sets_any-serial k ids committed)
      ∙ sym (d.values k)

-- Tasks with transactions of at most `m` inserts, each key always with the same value, whose entries
-- can be serialized, on disks that do not fail and with room in the queue for one transaction of each
-- task, that start on an empty log and an empty store with nothing pending, none of them inside a
-- transaction: in every order of their calls in which each task gets as many turns as it has calls,
-- though transactions may commit in another order than the one recovery replays them in, a new
-- process that recovers the log, if it is shorter than 2 ^ 64 bytes, has for every key what the store
-- of the old process has.
pub interleave-recover :
    {c : Codec}
    → IsLawful c
    → (value : Bytes → Bytes) (m : ℕ) → SerializesCommits c
    → (beats : List Beat) (ws : List Worker) (db : Database) (n : ℕ) → All IsCalmBeat beats
    → Runs c [] db
    → db.store ≡ []
    → db.wal.pending ≡ []
    → All (IsReady c value m) ws
    → All IsFresh ws
    → length ws * m < db.wal.max_queue_size
    → ((j : ℕ) → left_at j ws ≤ times j beats)
    → length (log_file (interleave c beats ws db).0.wal) < 2 ^ 64
    → (k : Bytes)
    → Map.get k (recovered c n (interleave c beats ws db).0.wal).store
      ≡ Map.get k (interleave c beats ws db).0.store
interleave-recover {c} l value m markers beats ws db n calm runs blank empty r fresh size fair small
      k =
    let d =
      interleave-Finished c value m markers beats ws db [] calm runs r size
        (omega (arith, fresh_holds_none ws fresh, ap (length {A = WalEntry}) empty)) fair in
    let same : (interleave c beats ws db).0 ≡ d.after = ap (λ p. p.0) d.returned in
    rw (same) (Finished-recovered d fresh l n blank (rw (sym same) small) k)
