-- ===== src/Checkpoint/Decimal.antt =====
-- `u64::to_string`, `str::trim` and `str::parse::<u64>`, on the bytes of ASCII texts.
use native.Mathlib.Omega.{pow_step}
use async_wal_db.Prelude.{
  ℕ, zero, suc, ◌+◌, ◌-◌, ◌*◌, ◌/◌, ◌%◌, ◌^◌, ◌<◌, ◌≡◌, refl, ap, ◌∙◌, arith, [], ◌∷◌, ◌++◌, Bool,
  true, false, ◌&&◌, ◌||◌, Option, none, some, ltb, leb, nat_beq, if◌then◌else◌, Bool-cases, inl,
  inr, All, All-append, ◌≢◌, ◌≤◌, length, length-append,
}
use async_wal_db.Entry.{Bytes}
use async_wal_db.Header.Bytes.{IsByte}

-- A `u64` has at most 20 digits.
digits : ℕ → ℕ → Bytes
digits zero n = []
digits (suc most) n =
    let front = digits most (n / 10) in
    if ltb n 10 then (48 + n) ∷ [] else front ++ (48 + n % 10) ∷ []

unfoldable pub to_string : ℕ → Bytes
unfolding digits
to_string n = digits 20 n

abbrev is_digit : ℕ → Bool
is_digit b = leb 48 b && leb b 57

-- The digits from the left, each multiplied in; `none` for another byte or a number beyond `u64`.
parse_digits : ℕ → Bytes → Option ℕ
parse_digits acc [] = some acc
parse_digits acc (b ∷ bs) =
    let next = acc * 10 + (b - 48) in
    let rest = parse_digits next bs in if is_digit b && ltb next (2 ^ 64) then rest else none

-- An empty text, or a lone sign, is no number; one sign `+` may stand in front.
parse_unsigned : Bytes → Option ℕ
unfolding parse_digits
parse_unsigned [] = none
parse_unsigned (b ∷ bs) = parse_digits 0 (b ∷ bs)

unfoldable pub parse : Bytes → Option ℕ
unfolding parse_unsigned
parse [] = none
parse (b ∷ bs) = if nat_beq b 43 then parse_unsigned bs else parse_unsigned (b ∷ bs)

-- White space: tab, line feed, vertical tab, form feed, carriage return, space.
abbrev is_space : ℕ → Bool
is_space b = nat_beq b 32 || (leb 9 b && leb b 13)

trim_start : Bytes → Bytes
trim_start [] = []
trim_start (b ∷ bs) = let rest = trim_start bs in if is_space b then rest else b ∷ bs

abbrev is_nil : Bytes → Bool
is_nil [] = true
is_nil (b ∷ bs) = false

trim_end : Bytes → Bytes
trim_end [] = []
trim_end (b ∷ bs) = let rest = trim_end bs in if is_space b && is_nil rest then [] else b ∷ rest

unfoldable pub trim : Bytes → Bytes
unfolding trim_start trim_end
trim b = trim_end (trim_start b)

abbrev AllDigits : Bytes → Type 0
AllDigits = All (λ b. is_digit b ≡ true)

is_digit_of : (d : ℕ) → d < 10 → is_digit (48 + d) ≡ true
is_digit_of d h = ground arith

not_space : (b : ℕ) → is_digit b ≡ true → is_space b ≡ false
not_space b h = ground arith

parse_digits-append :
    (acc n b : ℕ) (xs : Bytes)
    → parse_digits acc xs ≡ some n
    → is_digit b ≡ true
    → n * 10 + (b - 48) < 2 ^ 64
    → parse_digits acc (xs ++ b ∷ []) ≡ some (n * 10 + (b - 48))
unfolding parse_digits
parse_digits-append acc n b [] h d s = let same : acc ≡ n = cc in rw (same, d) (ground arith)
parse_digits-append acc n b (x ∷ xs) h d s =
    elim (Bool-cases (is_digit x && ltb (acc * 10 + (x - 48)) (2 ^ 64))) [
      | inl good ↦ rw good (parse_digits-append (acc * 10 + (x - 48)) n b xs (rw good at h) d s)
      | inr bad ↦ absurd (cc (rw bad at h))
    ]

parse-digits : (most n : ℕ) → n < 10 ^ most → n < 2 ^ 64 → parse_digits 0 (digits most n) ≡ some n
unfolding digits parse_digits
parse-digits zero n h s = ap some (omega (arith, h))
parse-digits (suc most) n h s = elim (Bool-cases (ltb n 10)) [
  | inl one ↦
      let small : n < 10 = ground arith in
      rw one (
        parse_digits-append 0 0 (48 + n) [] refl (is_digit_of n small) (omega arith)
        ∙ ap some (omega arith))
  | inr more ↦
      let step = pow_step 10 most in
      let less : n / 10 < 10 ^ most = omega arith in
      rw more (
        parse_digits-append 0 (n / 10) (48 + n % 10) (digits most (n / 10))
          (parse-digits most (n / 10) less (omega arith)) (is_digit_of (n % 10) (omega arith))
          (omega arith)
        ∙ ap some (omega arith))
]

digits-AllDigits : (most n : ℕ) → AllDigits (digits most n)
unfolding digits
digits-AllDigits zero n = tt
digits-AllDigits (suc most) n = elim (Bool-cases (ltb n 10)) [
  | inl one ↦ rw one (is_digit_of n (ground arith), tt)
  | inr more ↦ rw more (
      All-append (λ b. is_digit b ≡ true) (digits most (n / 10)) ((48 + n % 10) ∷ [])
        (digits-AllDigits most (n / 10)) (is_digit_of (n % 10) (omega arith), tt))
]

trim_start-digits : (b : Bytes) → AllDigits b → trim_start b ≡ b
unfolding trim_start
trim_start-digits [] h = refl
trim_start-digits (b ∷ bs) h = rw (not_space b h.0)

trim_end-digits : (b : Bytes) → AllDigits b → trim_end b ≡ b
unfolding trim_end
trim_end-digits [] h = refl
trim_end-digits (b ∷ bs) h = rw (not_space b h.0, trim_end-digits bs h.1)

parse_of_digits :
    (b : Bytes) → AllDigits b → (n : ℕ) → b ≢ [] → parse_digits 0 b ≡ some n → parse b ≡ some n
unfolding parse parse_unsigned
parse_of_digits [] h n ne e = absurd (ne refl)
parse_of_digits (b ∷ bs) h n ne e =
    let no_sign : nat_beq b 43 ≡ false = ground (arith, h.0) in rw no_sign e

digits-ne : (most n : ℕ) → digits (suc most) n ≢ []
unfolding digits
digits-ne most n p = elim (Bool-cases (ltb n 10)) [
  | inl one ↦ cc (rw one at p)
  | inr more ↦ append_last-ne (digits most (n / 10)) (48 + n % 10) (rw more at p)
]
  where
    append_last-ne : (xs : Bytes) (b : ℕ) → xs ++ b ∷ [] ≢ []
    append_last-ne [] b q = cc
    append_last-ne (x ∷ xs) b q = cc

-- A number that is written as text is read back from it, with white space trimmed off or not.
pub parse-to_string : (n : ℕ) → n < 2 ^ 64 → parse (trim (to_string n)) ≡ some n
unfolding to_string trim
parse-to_string n h =
    let all = digits-AllDigits 20 n in
    let same : trim_end (trim_start (digits 20 n)) ≡ digits 20 n =
      ap trim_end (trim_start-digits (digits 20 n) all) ∙ trim_end-digits (digits 20 n) all in
    ap parse same
    ∙ parse_of_digits (digits 20 n) all n (digits-ne 19 n) (parse-digits 20 n (omega arith) h)

length-digits_le : (most n : ℕ) → length (digits most n) ≤ most
unfolding digits
length-digits_le zero n = omega arith
length-digits_le (suc most) n = elim (Bool-cases (ltb n 10)) [
  | inl one ↦ rw one (omega arith)
  | inr more ↦ rw more (
      omega (
        arith,
        length-append (digits most (n / 10)) ((48 + n % 10) ∷ []),
        length-digits_le most (n / 10),
      ))
]

pub length-to_string_le : (n : ℕ) → length (to_string n) ≤ 20
unfolding to_string
length-to_string_le n = length-digits_le 20 n

pub to_string-IsByte : (n : ℕ) → All IsByte (to_string n)
unfolding to_string
to_string-IsByte n = over (digits 20 n) (digits-AllDigits 20 n)
  where
    over : (b : Bytes) → AllDigits b → All IsByte b
    over [] h = tt
    over (x ∷ b) h = (ground (arith, h.0), over b h.1)
