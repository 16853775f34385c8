-- ===== src/Lmdb/Writes.antt =====
-- What the writes of a transaction leave in it, beside a map.
use mathlib.Core.List.{foldl}
use mathlib.Core.Path.{subst}
use async_wal_db.Prelude.{
  ◌≡◌, refl, ap, ◌∙◌, arith, List, [], ◌∷◌, Bool, Option, none, some, Option-cases, inl, inr,
  bytes_eq,
}
use async_wal_db.Prelude.Map
use async_wal_db.Errors.{Result, ok}
use async_wal_db.Entry.{Bytes}
use async_wal_db.Store.{Store}
use async_wal_db.Lmdb.Package.{Heed, IsLawful, is_some}
use async_wal_db.Lmdb.{LmdbStorage, or_io, ◌>>=◌}
use async_wal_db.Lmdb.Calls.{Write, write_in, writes_in, stored}

pub or_io-ok {ℓ k} :
    {A : Type ℓ} {B : Type k} (o : Option A) (f : A → Result B) (b : B)
    → (or_io o >>= f) ≡ ok b
    → (a : A) × (o ≡ some a) × (f a ≡ ok b)
or_io-ok none f b h = absurd (cc (h))
or_io-ok (some a) f b h = (a, refl, h)

pub or_io-ok_lem {ℓ} : {A : Type ℓ} (o : Option A) (a : A) → or_io o ≡ ok a → o ≡ some a
or_io-ok_lem none a h = absurd (cc (h))
or_io-ok_lem (some b) a h = ground (arith, h)

-- The parts of a result that is known.
pub same_part :
    {A B : Type 0} {a c : A} {b d : B} → ◌≡◌ {A = Result (A × B)} (ok (a, b)) (ok (c, d)) → a ≡ c
same_part {A} {B} {a} e = ap (λ r. part r) e
  where
    part : Result (A × B) → A
    part (ok p) = p.0
    part r = a

module _ (h : Heed) (l : IsLawful h) where
  -- The environment holds what the map does.
  abbrev pub Holds : Store → LmdbStorage h → Type 0
  Holds m s = (k : Bytes) → l.held s.env k ≡ Map.get k m

  abbrev pub Sees : Store → h.RwTxn → Type 0
  Sees m t = (k : Bytes) → l.seen t k ≡ Map.get k m

  pub begun-Sees :
      (m : Store) (s : LmdbStorage h) (t : h.RwTxn)
      → Holds m s
      → h.write_txn s.env ≡ some t
      → Sees m t
  begun-Sees m s t before e k = l.write_txn_sees s.env t e k ∙ before k

  pub delete-Sees :
      (m : Store) (key : Bytes) (t u : h.RwTxn) (gone : Bool)
      → h.delete key t ≡ some (u, gone)
      → Sees m t
      → (gone ≡ is_some (Map.get key m)) × Sees (Map.remove key m) u
  delete-Sees m key t u gone e sees =
      let (told, left) = l.delete_sees key t u gone e in
      (told ∙ ap is_some (sees key), λ j. rw (left j, sees j, Map.get-remove key j m))

  pub put-Sees :
      (m : Store) (key value : Bytes) (t u : h.RwTxn)
      → h.put key value t ≡ some u
      → Sees m t
      → Sees (Map.insert key value m) u
  put-Sees m key value t u e sees j =
      rw (l.put_sees key value t u e j, sees j, Map.get-insert key j value m)

  write_in-Sees :
      (m : Store) (w : Write) (t u : h.RwTxn)
      → write_in h w t ≡ some u
      → Sees m t
      → Sees (stored m w) u
  write_in-Sees m (Write.put key value) t u e sees = put-Sees m key value t u e sees
  write_in-Sees m (Write.delete key) t u e sees = elim (Option-cases (h.delete key t)) [
    | inl failed ↦ absurd (cc (rw (write_in, failed) at e))
    | inr ((u', gone), d) ↦
        subst (λ u. Sees (Map.remove key m) u) (cc (rw (write_in, d) at e))
          (delete-Sees m key t u' gone d sees).1
  ]

  pub writes_in-Sees :
      (ws : List Write) (m : Store) (t u : h.RwTxn)
      → writes_in h ws t ≡ (u, ok tt)
      → Sees m t
      → Sees (foldl stored m ws) u
  writes_in-Sees [] m t u e sees = subst (Sees m) (ap (λ p. p.0) e) sees
  writes_in-Sees (w ∷ ws) m t u e sees = elim (Option-cases (write_in h w t)) [
    | inl failed ↦ absurd (cc (rw (writes_in, failed) at e))
    | inr (t', d) ↦
        writes_in-Sees ws (stored m w) t' u (rw (writes_in, d) at e) (write_in-Sees m w t t' d sees)
  ]
