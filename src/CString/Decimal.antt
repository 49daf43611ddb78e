-- ===== src/CString/Decimal.antt =====
-- `strtol` reads back what `%d` prints.
use datacomm_chat_server.Prelude.{
  ℕ, zero, suc, ◌+◌, ◌%◌, ◌/◌, ◌<◌, ◌^◌, ◌≡◌, refl, true, [], ◌∷◌, ◌++◌, arith, ltb, Bool-cases,
  pos, subst, inl, inr,
}
use datacomm_chat_server.CString.{
  Str, digits_from, decimal, isdigit, skip_spaces, read_digits, signed, strtol,
}

-- Reading the digits of n, and then those behind them, reads on from n.
read_digits-digits_from :
    (fuel n : ℕ) (acc : Str) → n < fuel → read_digits 0 (digits_from fuel n acc) ≡ read_digits n acc
unfolding read_digits digits_from
read_digits-digits_from zero n acc h = absurd (omega arith)
read_digits-digits_from (suc fuel) n acc h =
    ground (arith, read_digits-digits_from fuel (n / 10) ((48 + n % 10) ∷ acc))

-- The first character is a digit.
digits_from-head :
    (fuel n : ℕ) (acc : Str)
    → n < fuel
    → (c : ℕ) × (rest : Str) × (digits_from fuel n acc ≡ c ∷ rest) × (isdigit c ≡ true)
unfolding digits_from
digits_from-head zero n acc h = absurd (omega arith)
digits_from-head (suc fuel) n acc h = elim (Bool-cases (ltb n 10)) [
  | inl small ↦ (48 + n, acc, rw small, ground arith)
  | inr large ↦ rw large (digits_from-head fuel (n / 10) ((48 + n % 10) ∷ acc) (ground arith))
]

-- Digits in front of a text are read up to the first byte that is not one.
read_digits-append :
    (fuel n : ℕ) (acc rest : Str)
    → digits_from fuel n acc ++ rest ≡ digits_from fuel n (acc ++ rest)
unfolding digits_from
read_digits-append zero n acc rest = refl
read_digits-append (suc fuel) n acc rest =
    ground (arith, read_digits-append fuel (n / 10) ((48 + n % 10) ∷ acc) rest)

signed_digit :
    (c : ℕ) (s : Str) (n : ℕ) (t : Str)
    → isdigit c ≡ true
    → read_digits 0 (c ∷ s) ≡ (n, t)
    → n < 2 ^ 63
    → signed (skip_spaces (c ∷ s)) ≡ pos n
unfolding signed skip_spaces
signed_digit c s n t d e h = ground (arith, e)

-- A printed number starts with a digit, and its digits are read back to the end.
pub decimal-head :
    (n : ℕ)
    → (c : ℕ) × (rest : Str) × (decimal n ≡ c ∷ rest)
      × (isdigit c ≡ true)
      × (read_digits 0 (c ∷ rest) ≡ (n, []))
unfolding decimal
decimal-head n =
    let (c, rest, e, d) = digits_from-head (suc n) n [] (omega arith) in
    let read = read_digits-digits_from (suc n) n [] (omega arith) in
    (c, rest, e, d, unfold read_digits in subst (λ t. read_digits 0 t ≡ (n, [])) e read)

-- `strtol` of a printed number that fits `long` is the number.
pub strtol-decimal : (n : ℕ) → n < 2 ^ 63 → strtol (decimal n) ≡ pos n
unfolding strtol
strtol-decimal n h =
    let (c, rest, e, d, read) = decimal-head n in rw e (signed_digit c rest n [] d read h)
