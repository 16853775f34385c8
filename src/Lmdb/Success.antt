-- ===== src/Lmdb/Success.antt =====
-- Calls of `LmdbStorage` on a device that works.
use mathlib.Core.List.{foldl}
use mathlib.Core.Path.{subst}
use async_wal_db.Prelude.{
  ℕ, ◌+◌, ◌≤◌, arith, ◌≡◌, ◌≢◌, refl, List, [], ◌∷◌, map, Option, none, some, All,
}
use async_wal_db.Errors.{Result, ok, err, panic, unfinished}
use async_wal_db.Entry.{Bytes}
use async_wal_db.Store.{Store}
use async_wal_db.Lmdb.Package.{Heed, IsLawful, IsReliable}
use async_wal_db.Lmdb
use async_wal_db.Lmdb.{LmdbStorage, or_io, ◌>>=◌}
use async_wal_db.Lmdb.Calls.{
  Write, Call, Reply, reply, write_in, writes_in, step, run, after, answer, kept, Answers, HasKey,
  HasKeys, IsOk,
}
use async_wal_db.Lmdb.Writes.{Holds}
use async_wal_db.Lmdb.Answers.{run-Answers}

reply-IsOk {ℓ} : {A : Type ℓ} (f : A → Reply) (r : Result A) → IsOk r → IsOk (reply f r)
reply-IsOk f (ok a) IsOk.is_ok = IsOk.is_ok
reply-IsOk f (err e) good = elim good [ ]
reply-IsOk f panic good = elim good [ ]
reply-IsOk f unfinished good = elim good [ ]

module _ {h : Heed} (q : IsReliable h) where
  -- What calls may take of the map.
  abbrev pub write_cost : Write → ℕ
  write_cost (Write.put key value) = q.put_cost key value
  write_cost (Write.delete key) = q.delete_cost key

  abbrev pub batch_cost : List Write → ℕ
  batch_cost [] = 0
  batch_cost (w ∷ ws) = write_cost w + batch_cost ws

  abbrev pub call_cost : Call → ℕ
  call_cost (Call.get key) = 0
  call_cost (Call.write w) = write_cost w
  call_cost (Call.batch ws) = batch_cost ws

  abbrev pub run_cost : List Call → ℕ
  run_cost [] = 0
  run_cost (c ∷ cs) = call_cost c + run_cost cs

  -- The call succeeds, and takes no more than its cost.
  record Succeeds {A : Type 0} (s : LmdbStorage h) (cost : ℕ) (p : LmdbStorage h × Result A)
      : Type 0 where
    good : IsOk p.1
    room : q.free s.env ≤ q.free p.0.env + cost

  conclude-Succeeds :
      {A : Type 0} (s : LmdbStorage h) (t u : h.RwTxn) (a : A) (cost : ℕ)
      → q.free s.env ≤ q.left t
      → q.left t ≤ q.left u + cost
      → Succeeds s cost (Lmdb.conclude h s (ok (u, a)))
  unfolding Lmdb.conclude
  conclude-Succeeds s t u a cost begun taken =
      let (env, done, room) = q.commits u s.env in
      rw (done) (record { good = IsOk.is_ok; room = omega (arith, begun, taken, room) })

  one_write :
      (w : Write) (t : h.RwTxn)
      → HasKey w
      → write_cost w ≤ q.left t
      → (u : h.RwTxn) × (write_in h w t ≡ some u) × (q.left t ≤ q.left u + write_cost w)
  one_write (Write.put key value) t valid fits = q.puts key value t valid fits
  one_write (Write.delete key) t valid fits =
      let (u, gone, done, room) = q.deletes key t valid fits in (u, rw (write_in, done), room)

  all_writes :
      (ws : List Write) (t : h.RwTxn)
      → All HasKey ws
      → batch_cost ws ≤ q.left t
      → (u : h.RwTxn) × (writes_in h ws t ≡ (u, ok tt)) × (q.left t ≤ q.left u + batch_cost ws)
  all_writes [] t valid fits = (t, refl, omega arith)
  all_writes (w ∷ ws) t valid fits =
      let (u, done, room) = one_write w t valid.0 (omega (arith, fits)) in
      let (v, rest, room') = all_writes ws u valid.1 (omega (arith, fits, room)) in
      (v, rw (writes_in, done) rest, omega (arith, room, room'))

  step-Succeeds :
      (c : Call) (s : LmdbStorage h)
      → HasKeys c
      → call_cost c ≤ q.free s.env
      → Succeeds s (call_cost c) ((step h c s).0, (step h c s).1)
  unfolding Lmdb.get Lmdb.put Lmdb.delete Lmdb.batch_write
  step-Succeeds (Call.get key) s valid fits = record {
    good = reply-IsOk Reply.found _ (read (h.read_txn s.env) (q.reads s.env));
    room = omega arith;
  }
    where
      found_in : (o : Option (Option Bytes)) → o ≢ none → IsOk (or_io o)
      found_in none there = absurd (there refl)
      found_in (some a) there = IsOk.is_ok

      read : (o : Option h.RoTxn) → o ≢ none → IsOk (or_io o >>= λ rtxn. or_io (h.get key rtxn))
      read none there = absurd (there refl)
      read (some t) there = found_in (h.get key t) (q.gets key t valid)
  step-Succeeds (Call.write (Write.put key value)) s valid fits =
      let (t, begun, room) = q.writes s.env in
      let (u, done, taken) = q.puts key value t valid (omega (arith, fits, room)) in
      let d = conclude-Succeeds s t u tt (q.put_cost key value) room taken in
      rw (begun, done) (record { good = reply-IsOk (λ u. Reply.done) _ d.good; room = d.room })
  step-Succeeds (Call.write (Write.delete key)) s valid fits =
      let (t, begun, room) = q.writes s.env in
      let (u, gone, done, taken) = q.deletes key t valid (omega (arith, fits, room)) in
      let d = conclude-Succeeds s t u gone (q.delete_cost key) room taken in
      rw (begun, done) (record { good = reply-IsOk Reply.deleted _ d.good; room = d.room })
  step-Succeeds (Call.batch ws) s valid fits =
      let (t, begun, room) = q.writes s.env in
      let (u, done, taken) = all_writes ws t valid (omega (arith, fits, room)) in
      let d = conclude-Succeeds s t u tt (batch_cost ws) room taken in
      rw (begun, done) (record { good = reply-IsOk (λ u. Reply.done) _ d.good; room = d.room })

  run-IsOk :
      (cs : List Call) (s : LmdbStorage h)
      → All HasKeys cs
      → run_cost cs ≤ q.free s.env
      → All IsOk (run h cs s).1
  run-IsOk [] s valid fits = tt
  run-IsOk (c ∷ cs) s valid fits =
      let d = step-Succeeds c s valid.0 (omega (arith, fits)) in
      (d.good, run-IsOk cs (step h c s).0 valid.1 (omega (arith, fits, d.room)))

-- All answers of a map to the calls, and the map that they leave.
abbrev pub answers : Store → List Call → List Reply
answers m [] = []
answers m (c ∷ cs) = answer c m ∷ answers (after c m) cs

abbrev pub effects : Store → List Call → Store
effects m cs = foldl (λ m c. after c m) m cs

replies_known :
    (cs : List Call) (m : Store) (rs : List (Result Reply))
    → Answers m cs rs
    → All IsOk rs
    → (rs ≡ map ok (answers m cs)) × (kept m cs rs ≡ effects m cs)
replies_known [] m [] told good = (refl, refl)
replies_known [] m (r ∷ rs) told good = elim told [ ]
replies_known (c ∷ cs) m [] told good = elim told [ ]
replies_known (c ∷ cs) m (err e ∷ rs) told good = elim good.0 [ ]
replies_known (c ∷ cs) m (panic ∷ rs) told good = elim good.0 [ ]
replies_known (c ∷ cs) m (unfinished ∷ rs) told good = elim good.0 [ ]
replies_known (c ∷ cs) m (ok r ∷ rs) told good =
    let (same, left) = replies_known cs (after c m) rs told.1 good.1 in (cc (told.0, same), left)

-- On keys that LMDB takes, on a device that works, and with as many bytes of the map free at the
-- beginning as the calls cost together, every call succeeds: the replies are those of a map, and at
-- the end the environment holds what the map does.
pub run_reliable :
    (h : Heed) (l : IsLawful h) (q : IsReliable h) (cs : List Call) (m : Store) (s : LmdbStorage h)
    → Holds h l m s
    → All HasKeys cs
    → run_cost q cs ≤ q.free s.env
    → ((run h cs s).1 ≡ map ok (answers m cs)) × Holds h l (effects m cs) (run h cs s).0
run_reliable h l q cs m s before valid fits =
    let (told, held) = run-Answers h l cs m s before in
    let (same, left) = replies_known cs m (run h cs s).1 told (run-IsOk q cs s valid fits) in
    (same, subst (λ m. Holds h l m (run h cs s).0) left held)
