-- ===== src/Lmdb/Tests.antt =====
-- A `heed` that keeps its data in a map and refuses keys that LMDB does not take, and the theorems
-- about `LmdbStorage` at it.
use async_wal_db.Prelude.{
  ℕ, ◌+◌, ◌-◌, ◌≤◌, ◌≡◌, refl, sym, ap, ◌∙◌, arith, List, [], ◌∷◌, map, Bool, true, false, ◌&&◌,
  Option, none, some, bytes_eq, if◌then◌else◌, leb, length,
}
use async_wal_db.Prelude.Map
use async_wal_db.Errors.{ok, err, io}
use async_wal_db.Entry.{Bytes}
use async_wal_db.Store.{Store}
use async_wal_db.Lmdb.Package.{Heed, IsLawful, IsReliable, IsKey, is_some}
use async_wal_db.Lmdb
use async_wal_db.Lmdb.{LmdbStorage}
use async_wal_db.Lmdb.Calls.{Write, Call, Reply, run, Answers, kept}
use async_wal_db.Lmdb.Writes.{Holds}
use async_wal_db.Lmdb.Answers.{new-run}
use async_wal_db.Lmdb.Success.{answers, effects, run_reliable}

abbrev taken : Bytes → Bool
taken k = leb 1 (length k) && leb (length k) 511

abbrev on_disk : Store
on_disk = (1 ∷ [], 10 ∷ []) ∷ []

-- What it holds, and how many bytes are free.
abbrev Space : Type 0
Space = Store × ℕ

-- It counts the bytes of the keys and values that are put, and does not reuse them.
abbrev fits : Bytes → Bytes → Space → Bool
fits k v t = taken k && leb (length k + length v) t.1

abbrev in_map : Heed
in_map = record {
  Env = Space;
  RoTxn = Space;
  RwTxn = Space;
  open_env = λ map_size max_dbs path. some (on_disk, map_size);
  read_txn = λ env. some env;
  write_txn = λ env. some env;
  create_database = λ t. some t;
  get = λ k t. if taken k then some (Map.get k t.0) else none;
  put =
      λ k v t. if fits k v t then some (Map.insert k v t.0, t.1 - (length k + length v)) else none;
  delete = λ k t. if taken k then some ((Map.remove k t.0, t.1), is_some (Map.get k t.0)) else none;
  commit = λ t env. (t, true);
}

of_some {ℓ} : {A : Type ℓ} (x y : A) → some x ≡ some y → x ≡ y
of_some {A = A} x y e = ap (λ o. value o) e
  where
    value : Option A → A
    value none = x
    value (some a) = a

of_taken {ℓ} : {A : Type ℓ} (b : Bool) (x y : A) → (if b then some x else none) ≡ some y → x ≡ y
of_taken true x y e = of_some x y e
of_taken false x y e = absurd (cc (e))

in_map-IsLawful : IsLawful in_map
in_map-IsLawful = record {
  held = λ env k. Map.get k env.0;
  seen = λ t k. Map.get k t.0;
  shown = λ t k. Map.get k t.0;
  read_txn_shows = λ env t e k. ap (λ (p : Space). Map.get k p.0) (sym (of_some _ _ e));
  write_txn_sees = λ env t e k. ap (λ (p : Space). Map.get k p.0) (sym (of_some _ _ e));
  create_database_sees = λ t u e k. ap (λ (p : Space). Map.get k p.0) (sym (of_some _ _ e));
  get_shown = λ k t found e. sym (of_taken (taken k) (Map.get k t.0) found e);
  put_sees = λ k v t u e j.
      ap (λ (p : Space). Map.get j p.0) (sym (of_taken (fits k v t) _ u e))
      ∙ Map.get-insert k j v t.0;
  delete_sees = λ k t u deleted e.
      let same =
        of_taken (taken k) ((Map.remove k t.0, t.1), is_some (Map.get k t.0)) (u, deleted) e in
      (
        ap (λ p. p.1) (sym same),
        λ j. ap (λ p. Map.get j p.0.0) (sym same) ∙ Map.get-remove k j t.0,
      );
  commit_holds = λ t env after e k. ap (λ p. Map.get k p.0.0) (sym e);
  commit_fails = λ t env after e k. absurd (cc (ap (λ p. p.1) e));
}

takes : (k : Bytes) → IsKey k → taken k ≡ true
takes k valid = ground (arith, valid)

has_room : (k v : Bytes) (t : Space) → IsKey k → length k + length v ≤ t.1 → fits k v t ≡ true
has_room k v t valid room = ground (arith, valid, room)

in_map-IsReliable : IsReliable in_map
in_map-IsReliable = record {
  free = λ env. env.1;
  left = λ t. t.1;
  put_cost = λ k v. length k + length v;
  delete_cost = λ k. 0;
  reads = λ env e. absurd (cc (e));
  gets = λ k t valid e. absurd (cc (rw (takes k valid) at e));
  writes = λ env. (env, refl, omega arith);
  puts = λ k v t valid room. (
    (Map.insert k v t.0, t.1 - (length k + length v)),
    rw (has_room k v t valid room),
    omega (arith, room),
  );
  deletes = λ k t valid room.
      ((Map.remove k t.0, t.1), is_some (Map.get k t.0), rw (takes k valid), omega arith);
  commits = λ t env. (t, refl, omega arith);
}

-- One write fails, and with it the batch that it is part of.
abbrev calls : List Call
calls =
    Call.batch (Write.put (2 ∷ []) (20 ∷ []) ∷ Write.delete [] ∷ [])
    ∷ Call.write (Write.put (3 ∷ []) (30 ∷ []))
    ∷ Call.get (2 ∷ [])
    ∷ Call.write (Write.delete (1 ∷ []))
    ∷ []

abbrev storage : LmdbStorage in_map
storage = record { env = (on_disk, 1_073_741_824) }

new_opens : Lmdb.new in_map true [] ≡ ok storage
unfolding Lmdb.new Lmdb.create Lmdb.conclude
new_opens = refl

sample_replies :
    (run in_map calls storage).1
    ≡ err io ∷ ok Reply.done ∷ ok (Reply.found none) ∷ ok (Reply.deleted true) ∷ []
unfolding Lmdb.get Lmdb.put Lmdb.delete Lmdb.batch_write Lmdb.conclude Map.get Map.insert Map.remove
sample_replies = refl

new-run_example :
    Answers on_disk calls (run in_map calls storage).1
    × Holds in_map in_map-IsLawful
        (kept on_disk calls (run in_map calls storage).1)
        (run in_map calls storage).0
unfolding in_map-IsLawful
new-run_example =
    new-run in_map in_map-IsLawful true [] on_disk storage calls
      (λ env e k. ap (λ (p : Space). Map.get k p.0) (sym (of_some _ _ e))) new_opens

abbrev good_calls : List Call
good_calls =
    Call.batch (Write.put (2 ∷ []) (20 ∷ []) ∷ Write.delete (1 ∷ []) ∷ []) ∷ Call.get (2 ∷ []) ∷ []

run_reliable_example :
    ((run in_map good_calls storage).1 ≡ map ok (answers on_disk good_calls))
    × Holds in_map in_map-IsLawful (effects on_disk good_calls) (run in_map good_calls storage).0
unfolding in_map-IsLawful in_map-IsReliable
run_reliable_example =
    run_reliable in_map in_map-IsLawful in_map-IsReliable good_calls on_disk storage (λ k. refl)
      (
        ((omega arith, omega arith), ((omega arith, omega arith), tt)),
        ((omega arith, omega arith), tt),
      )
      (omega arith)
