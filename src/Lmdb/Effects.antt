-- ===== src/Lmdb/Effects.antt =====
-- What each method of `LmdbStorage` comes to, beside a map that holds what the environment does.
use mathlib.Core.List.{foldl}
use mathlib.Core.Path.{subst}
use async_wal_db.Prelude.{◌≡◌, refl, sym, ap, ◌∙◌, List, Bool, true, false, Option, bytes_eq}
use async_wal_db.Prelude.Map
use async_wal_db.Errors.{Result, ok, err, panic, unfinished}
use async_wal_db.Entry.{Bytes}
use async_wal_db.Store.{Store}
use async_wal_db.Lmdb.Package.{Heed, IsLawful, is_some}
use async_wal_db.Lmdb
use async_wal_db.Lmdb.{LmdbStorage, or_io, ◌>>=◌}
use async_wal_db.Lmdb.Calls.{Write, Call, Reply, reply, writes_in, step, stored, after, answer}
use async_wal_db.Lmdb.Writes.{
  or_io-ok, or_io-ok_lem, same_part, Holds, Sees, begun-Sees, delete-Sees, put-Sees, writes_in-Sees,
}

abbrev pub Failed {ℓ} : {A : Type ℓ} → Result A → Type 0
Failed (ok a) = ⊥
Failed r = Unit

module _ (h : Heed) (l : IsLawful h) where
  -- What a method with the specification `m ↦ m'`, `a` comes to.
  pub data Effect {A : Type 0} (m m' : Store) (a : A) (s' : LmdbStorage h) : Result A → Type 0 where
    succeeds : {b : A} → b ≡ a → Holds h l m' s' → Effect m m' a s' (ok b)
    fails : {r : Result A} → Failed r → Holds h l m s' → Effect m m' a s' r

  committed-Effect :
      {A : Type 0} (m m' : Store) (b : A) (t : h.RwTxn) (env : h.Env)
      → ((k : Bytes) → l.held env k ≡ Map.get k m)
      → Sees h l m' t
      → (r : h.Env × Bool) → h.commit t env ≡ r
      → Effect m m' b (Lmdb.committed h b r).0 (Lmdb.committed h b r).1
  committed-Effect m m' b t env before sees (env', true) e =
      Effect.succeeds refl (λ k. l.commit_holds t env env' e k ∙ sees k)
  committed-Effect m m' b t env before sees (env', false) e =
      Effect.fails tt (λ k. l.commit_fails t env env' e k ∙ before k)

  conclude-Effect :
      {A : Type 0} (m m' : Store) (a : A) (s : LmdbStorage h) (r : Result (h.RwTxn × A))
      → Holds h l m s
      → ((t : h.RwTxn) (b : A) → r ≡ ok (t, b) → (b ≡ a) × Sees h l m' t)
      → Effect m m' a (Lmdb.conclude h s r).0 (Lmdb.conclude h s r).1
  unfolding Lmdb.conclude
  conclude-Effect m m' a s (ok (t, b)) before good =
      let (same, sees) = good t b refl in
      subst
        (λ a.
          Effect m m' a (Lmdb.committed h b (h.commit t s.env)).0
            (Lmdb.committed h b (h.commit t s.env)).1)
        same (committed-Effect m m' b t s.env before sees (h.commit t s.env) refl)
  conclude-Effect m m' a s (err e) before good = Effect.fails tt before
  conclude-Effect m m' a s panic before good = Effect.fails tt before
  conclude-Effect m m' a s unfinished before good = Effect.fails tt before

  put-Effect :
      (m : Store) (s : LmdbStorage h) (key value : Bytes)
      → Holds h l m s
      → Effect m (Map.insert key value m) tt (Lmdb.put h key value s).0 (Lmdb.put h key value s).1
  unfolding Lmdb.put
  put-Effect m s key value before = conclude-Effect m _ tt s _ before (λ t b e.
      let (w, began, e1) = or_io-ok (h.write_txn s.env) _ (t, b) e in
      let (w', put, e2) = or_io-ok (h.put key value w) _ (t, b) e1 in
      (
        refl,
        subst (Sees h l _) (same_part e2)
            (put-Sees h l m key value w w' put (begun-Sees h l m s w before began)),
      ))

  delete-Effect :
      (m : Store) (s : LmdbStorage h) (key : Bytes)
      → Holds h l m s
      → Effect m
          (Map.remove key m)
          (is_some (Map.get key m))
          (Lmdb.delete h key s).0
          (Lmdb.delete h key s).1
  unfolding Lmdb.delete
  delete-Effect m s key before = conclude-Effect m _ _ s _ before (λ t b e.
      let (w, began, e1) = or_io-ok (h.write_txn s.env) _ (t, b) e in
      delete-Sees h l m key w t b (or_io-ok_lem _ _ e1) (begun-Sees h l m s w before began))

  applied-ok :
      (r : h.RwTxn × Result (Unit {0})) (t : h.RwTxn) (b : Unit {0})
      → Lmdb.applied h r ≡ ok (t, b)
      → r ≡ (t, ok tt)
  applied-ok (w, ok u) t b e = ap (λ x. (x, ok tt)) (same_part e)
  applied-ok (w, err x) t b e = absurd (cc (e))
  applied-ok (w, panic) t b e = absurd (cc (e))
  applied-ok (w, unfinished) t b e = absurd (cc (e))

  batch_write-Effect :
      (m : Store) (s : LmdbStorage h) (ws : List Write)
      → Holds h l m s
      → Effect m
          (foldl stored m ws)
          tt
          (Lmdb.batch_write h (writes_in h ws) s).0
          (Lmdb.batch_write h (writes_in h ws) s).1
  unfolding Lmdb.batch_write
  batch_write-Effect m s ws before = conclude-Effect m _ tt s _ before (λ t b e.
      let (w, began, e1) = or_io-ok (h.write_txn s.env) _ (t, b) e in
      (refl, writes_in-Sees h l ws m w t (applied-ok _ t b e1) (begun-Sees h l m s w before began)))

  get-found :
      (m : Store) (s : LmdbStorage h) (key : Bytes) (found : Option Bytes)
      → Holds h l m s
      → Lmdb.get h key s ≡ ok found
      → found ≡ Map.get key m
  unfolding Lmdb.get
  get-found m s key found before e =
      let (t, began, e1) = or_io-ok (h.read_txn s.env) _ found e in
      l.get_shown key t found (or_io-ok_lem _ _ e1)
      ∙ l.read_txn_shows s.env t began key
      ∙ before key

  reply-Effect :
      {A : Type 0} {m m' : Store} {a : A} {s' : LmdbStorage h} (f : A → Reply) {r : Result A}
      → Effect m m' a s' r
      → Effect m m' (f a) s' (reply f r)
  reply-Effect f (Effect.succeeds e held) = Effect.succeeds (ap f e) held
  reply-Effect f {r = err e} (Effect.fails failed held) = Effect.fails tt held
  reply-Effect f {r = panic} (Effect.fails failed held) = Effect.fails tt held
  reply-Effect f {r = unfinished} (Effect.fails failed held) = Effect.fails tt held
  reply-Effect f {r = ok a} (Effect.fails failed held) = elim failed [ ]

  get-Effect :
      (m : Store) (s : LmdbStorage h) (key : Bytes) (r : Result (Option Bytes))
      → Lmdb.get h key s ≡ r
      → Holds h l m s
      → Effect m m (Map.get key m) s r
  get-Effect m s key (ok found) e before = Effect.succeeds (get-found m s key found before e) before
  get-Effect m s key (err x) e before = Effect.fails tt before
  get-Effect m s key panic e before = Effect.fails tt before
  get-Effect m s key unfinished e before = Effect.fails tt before

  -- What one call comes to: it answers as the map does and has the same effect, or it fails and has
  -- none.
  pub step-Effect :
      (m : Store) (s : LmdbStorage h) (c : Call)
      → Holds h l m s
      → Effect m (after c m) (answer c m) (step h c s).0 (step h c s).1
  step-Effect m s (Call.get key) before =
      reply-Effect Reply.found (get-Effect m s key (Lmdb.get h key s) refl before)
  step-Effect m s (Call.write (Write.put key value)) before =
      reply-Effect (λ u. Reply.done) (put-Effect m s key value before)
  step-Effect m s (Call.write (Write.delete key)) before =
      reply-Effect Reply.deleted (delete-Effect m s key before)
  step-Effect m s (Call.batch ws) before =
      reply-Effect (λ u. Reply.done) (batch_write-Effect m s ws before)

  pub create-Holds :
      (m : Store) (env : h.Env) (s : LmdbStorage h)
      → ((k : Bytes) → l.held env k ≡ Map.get k m)
      → Lmdb.create h env ≡ ok s
      → Holds h l m s
  unfolding Lmdb.create
  create-Holds m env s before e =
      let (w, began, e1) = or_io-ok (h.write_txn env) _ s e in
      let (u, created, e2) = or_io-ok (h.create_database w) _ s e1 in
      let start : LmdbStorage h = record { env = env } in
      of _ _
        (conclude-Effect m m tt start (ok (u, tt)) before (λ t b e3. (
          refl,
          λ k.
              ap (λ t. l.seen t k) (sym (same_part e3))
              ∙ l.create_database_sees w u created k
              ∙ begun-Sees h l m start w before began k,
        )))
        e2
    where
      of :
          (s' : LmdbStorage h) (r : Result (Unit {0}))
          → Effect m m tt s' r
          → Lmdb.opened h (s', r) ≡ ok s
          → Holds h l m s
      of s' (ok u) (Effect.succeeds same held) e' = subst (Holds h l m) (cc (e')) held
      of s' (ok u) (Effect.fails failed held) e' = elim failed [ ]
      of s' (err x) o e' = absurd (cc (e'))
      of s' panic o e' = absurd (cc (e'))
      of s' unfinished o e' = absurd (cc (e'))
