-- ===== src/Lmdb/Answers.antt =====
-- `LmdbStorage` against a map, call after call.
use async_wal_db.Prelude.{◌*◌, ◌≡◌, List, [], ◌∷◌, Bool, true, false, some, bytes_eq}
use async_wal_db.Prelude.Map
use async_wal_db.Errors.{Result, ok, err, panic, unfinished}
use async_wal_db.Entry.{Bytes}
use async_wal_db.Store.{Store}
use async_wal_db.Lmdb.Package.{Heed, IsLawful}
use async_wal_db.Lmdb
use async_wal_db.Lmdb.{LmdbStorage}
use async_wal_db.Lmdb.Calls.{Call, Reply, step, run, after, answer, kept, Answers}
use async_wal_db.Lmdb.Writes.{Holds, or_io-ok}
use async_wal_db.Lmdb.Effects.{Effect, step-Effect, create-Holds}

module _ (h : Heed) (l : IsLawful h) where
  carry :
      (m : Store) (c : Call) (cs : List Call) (s' : LmdbStorage h) (r : Result Reply)
      → Effect h l m (after c m) (answer c m) s' r
      → ((m' : Store)
          → Holds h l m' s'
          → Answers m' cs (run h cs s').1 × Holds h l (kept m' cs (run h cs s').1) (run h cs s').0)
      → Answers m (c ∷ cs) (r ∷ (run h cs s').1)
        × Holds h l (kept m (c ∷ cs) (r ∷ (run h cs s').1)) (run h cs s').0
  carry m c cs s' (ok a) (Effect.succeeds e held) rest =
      let (as', hs) = rest (after c m) held in ((e, as'), hs)
  carry m c cs s' (ok a) (Effect.fails failed held) rest = elim failed [ ]
  carry m c cs s' (err e) (Effect.fails failed held) rest = rest m held
  carry m c cs s' panic (Effect.fails failed held) rest = rest m held
  carry m c cs s' unfinished (Effect.fails failed held) rest = rest m held

  -- In any run of calls, whatever fails in it: each call that succeeds answers what a map answers
  -- that holds the effects of the successful calls before it, a batch's as a whole, and at the end
  -- the environment holds what that map does.
  pub run-Answers :
      (cs : List Call) (m : Store) (s : LmdbStorage h)
      → Holds h l m s
      → Answers m cs (run h cs s).1 × Holds h l (kept m cs (run h cs s).1) (run h cs s).0
  run-Answers [] m s before = (tt, before)
  run-Answers (c ∷ cs) m s before =
      carry m c cs (step h c s).0 (step h c s).1 (step-Effect h l m s c before)
        (λ m' held. run-Answers cs m' (step h c s).0 held)

  new-Holds :
      (created : Bool) (path : Bytes) (m : Store) (s : LmdbStorage h)
      → ((env : h.Env)
          → h.open_env (1_024 * 1_024 * 1_024) 1 path ≡ some env
          → (k : Bytes) → l.held env k ≡ Map.get k m)
      → Lmdb.new h created path ≡ ok s
      → Holds h l m s
  unfolding Lmdb.new
  new-Holds true path m s before e =
      let (env, there, e1) = or_io-ok (h.open_env (1_024 * 1_024 * 1_024) 1 path) _ s e in
      create-Holds h l m env s (before env there) e1
  new-Holds false path m s before e = absurd (cc (e))

  -- A storage that `new` has opened on an environment that holds what `m` does: in any run of calls,
  -- whatever fails in it, each call that succeeds answers what a map answers that holds `m` and the
  -- effects of the successful calls before it, a batch's as a whole, and at the end the environment
  -- holds what that map does.
  pub new-run :
      (created : Bool) (path : Bytes) (m : Store) (s : LmdbStorage h) (cs : List Call)
      → ((env : h.Env)
          → h.open_env (1_024 * 1_024 * 1_024) 1 path ≡ some env
          → (k : Bytes) → l.held env k ≡ Map.get k m)
      → Lmdb.new h created path ≡ ok s
      → Answers m cs (run h cs s).1 × Holds h l (kept m cs (run h cs s).1) (run h cs s).0
  new-run created path m s cs before e = run-Answers cs m s (new-Holds created path m s before e)
