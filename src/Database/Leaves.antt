-- ===== src/Database/Leaves.antt =====
-- Methods that leave the store and the counter as they are.
use async_wal_db.Prelude.{◌≡◌, ◌≢◌, refl, ◌∙◌}
use async_wal_db.Errors.{Result, ok, err, panic, unfinished}
use async_wal_db.Wal.{WalStorage}
use async_wal_db.Database.{Database, Action, on_wal, continue, ◌>>=◌}

-- Whatever comes of the method, the store and the counter are as before.
abbrev pub LeavesStore : {A : Type 0} → Action A → Type 0
LeavesStore m =
    (db : Database) → ((m db).0.store ≡ db.store) × ((m db).0.next_tx_id ≡ db.next_tx_id)

pub >>=-LeavesStore :
    {A B : Type 0} (m : Action A) (f : A → Action B)
    → LeavesStore m
    → ((a : A) → LeavesStore (f a))
    → LeavesStore (m >>= f)
unfolding ◌>>=◌
>>=-LeavesStore {A} {B} m f hm hf db = by_result (m db).1
  where
    by_result :
        (r : Result A)
        → ((continue (m db).0 r f).0.store ≡ db.store)
          × ((continue (m db).0 r f).0.next_tx_id ≡ db.next_tx_id)
    by_result (ok a) = ((hf a (m db).0).0 ∙ (hm db).0, (hf a (m db).0).1 ∙ (hm db).1)
    by_result (err e) = hm db
    by_result panic = hm db
    by_result unfinished = hm db

pub on_wal-LeavesStore :
    {A : Type 0} (f : WalStorage → WalStorage × Result A) → LeavesStore (on_wal f)
unfolding on_wal
on_wal-LeavesStore f db = (refl, refl)

-- A chain whose first part does not succeed ends with it.
pub >>=-fails :
    {A B : Type 0} (m : Action A) (f : A → Action B) (db : Database)
    → ((a : A) → (m db).1 ≢ ok a)
    → ((m >>= f) db).0 ≡ (m db).0
unfolding ◌>>=◌
>>=-fails {A} m f db h = by_result (m db).1 h
  where
    by_result : (r : Result A) → ((a : A) → r ≢ ok a) → (continue (m db).0 r f).0 ≡ (m db).0
    by_result (ok a) n = absurd (n a refl)
    by_result (err e) n = refl
    by_result panic n = refl
    by_result unfinished n = refl
