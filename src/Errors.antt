-- ===== src/Errors.antt =====
-- `WalError` of src/lib.rs, and the results of fallible operations.
use Prim.Native.Char.{code}
use async_wal_db.Prelude.{ℕ, String, List, [], ◌∷◌}

-- The bytes of a text that is ASCII, as the messages are.
abbrev pub codes : String → List ℕ
codes String.[] = []
codes (String.◌∷◌ c s) = code c ∷ codes s

-- The variants, in the source's order. The payloads of `Io`, `Serialization` and
-- `Deserialization` are errors of other packages, which the program only passes on.
pub data WalError : Type 0 where
  io serialization deserialization open_wal : WalError
  validation : List ℕ → WalError
  already_finalized no_new_checkpoints : WalError
  checkpoint invalid_state apply_store : List ℕ → WalError
  checksum_mismatch : (expected actual : ℕ) → WalError
  partial_write : (offset : ℕ) → WalError

-- What an operation comes to: a value, an error value, a panic of the task, or no return: the task
-- still waits, or the rounds given to a loop were used up.
pub data Result {ℓ} (A : Type ℓ) : Type ℓ where
  ok : A → Result A
  err : WalError → Result A
  panic : Result A
  unfinished : Result A
