-- ===== src/Header/Bytes.antt =====
-- `to_le_bytes` and `from_le_bytes` of Rust's unsigned integers: `w` bytes, the lowest first.
use async_wal_db.Prelude.{
  ℕ, zero, suc, ◌+◌, ◌*◌, ◌/◌, ◌%◌, ◌^◌, ◌<◌, ◌≡◌, refl, arith, List, [], ◌∷◌, length, All, ap,
}
use native.Mathlib.Nat.{pow-suc}

abbrev pub IsByte : ℕ → Type 0
IsByte b = b < 256

unfoldable pub le_bytes : ℕ → ℕ → List ℕ
le_bytes zero x = []
le_bytes (suc w) x = x % 256 ∷ le_bytes w (x / 256)

unfoldable pub of_le_bytes : List ℕ → ℕ
of_le_bytes [] = 0
of_le_bytes (b ∷ bs) = b + 256 * of_le_bytes bs

pub length-le_bytes : (w x : ℕ) → length (le_bytes w x) ≡ w
unfolding le_bytes
length-le_bytes zero x = refl
length-le_bytes (suc w) x = ap suc (length-le_bytes w (x / 256))

pub le_bytes-IsByte : (w x : ℕ) → All IsByte (le_bytes w x)
unfolding le_bytes
le_bytes-IsByte zero x = tt
le_bytes-IsByte (suc w) x = (omega arith, le_bytes-IsByte w (x / 256))

pub of_le_bytes-le_bytes : (w x : ℕ) → x < 256 ^ w → of_le_bytes (le_bytes w x) ≡ x
unfolding le_bytes of_le_bytes
of_le_bytes-le_bytes zero x h = omega arith
of_le_bytes-le_bytes (suc w) x h =
    omega (arith, of_le_bytes-le_bytes w (x / 256) (omega (arith, pow-suc 256 w)))

pub le_bytes-of_le_bytes :
    (bs : List ℕ) → All IsByte bs → le_bytes (length bs) (of_le_bytes bs) ≡ bs
unfolding le_bytes of_le_bytes
le_bytes-of_le_bytes [] h = refl
le_bytes-of_le_bytes (b ∷ bs) h = ground (arith, le_bytes-of_le_bytes bs h.1)

pub of_le_bytes-lt : (bs : List ℕ) → All IsByte bs → of_le_bytes bs < 256 ^ length bs
unfolding of_le_bytes
of_le_bytes-lt [] h = omega arith
of_le_bytes-lt (b ∷ bs) h = omega (arith, of_le_bytes-lt bs h.1, pow-suc 256 (length bs))
