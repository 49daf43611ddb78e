-- ===== src/CString/Number.antt =====
-- `strtol` on the text that `%d` prints, with its end pointer and its range error.
use datacomm_chat_server.CString.Tokens.{IsField, IsClean}
use native.Mathlib.Nat.{pow-suc}
use datacomm_chat_server.Prelude.{
  ℕ, ◌^◌, ◌≡◌, true, [], ◌∷◌, arith, some, ltb, ◌-◌, ap, ◌<◌, suc, Bool-cases, length, ◌≤◌, inl,
  ◌+◌, inr, ◌/◌, zero, ◌%◌,
}
use datacomm_chat_server.CString.{
  Str, decimal, isdigit, read_digits, skip_spaces, signed_end, digits_end, strtol_end, signed_range,
  strtol_range, digits_from, is_empty,
}
use datacomm_chat_server.CString.Decimal.{decimal-head}

signed_end_digit :
    (c : ℕ) (s : Str) (n : ℕ) (t : Str)
    → isdigit c ≡ true
    → read_digits 0 (c ∷ s) ≡ (n, t)
    → signed_end (skip_spaces (c ∷ s)) ≡ some t
unfolding signed_end digits_end skip_spaces
signed_end_digit c s n t d e = ground (arith, e)

signed_range_digit :
    (c : ℕ) (s : Str) (n : ℕ) (t : Str)
    → isdigit c ≡ true
    → read_digits 0 (c ∷ s) ≡ (n, t)
    → signed_range (skip_spaces (c ∷ s)) ≡ ltb (2 ^ 63 - 1) n
unfolding signed_range skip_spaces
signed_range_digit c s n t d e = ground (arith, e)

-- The whole text is read.
pub strtol_end-decimal : (n : ℕ) → strtol_end (decimal n) ≡ some []
unfolding strtol_end
strtol_end-decimal n =
    let (c, rest, e, d, read) = decimal-head n in rw e (signed_end_digit c rest n [] d read)

-- Only a number beyond `long` is out of range.
pub strtol_range-decimal : (n : ℕ) → strtol_range (decimal n) ≡ ltb (2 ^ 63 - 1) n
unfolding strtol_range
strtol_range-decimal n =
    let (c, rest, e, d, read) = decimal-head n in rw e (signed_range_digit c rest n [] d read)

digits_from-IsClean : (fuel n : ℕ) (acc : Str) → IsClean acc → IsClean (digits_from fuel n acc)
unfolding digits_from
digits_from-IsClean zero n acc h = h
digits_from-IsClean (suc fuel) n acc h = elim (Bool-cases (ltb n 10)) [
  | inl small ↦ rw small ((omega arith, omega arith), h)
  | inr large ↦
      rw large
        (digits_from-IsClean fuel (n / 10) ((48 + n % 10) ∷ acc) ((omega arith, omega arith), h))
]

-- A printed number is a field of a request.
pub decimal-IsField : (n : ℕ) → IsField (decimal n)
unfolding decimal
decimal-IsField n =
    let (c, rest, e, d, read) = decimal-head n in
    (ap is_empty e, digits_from-IsClean (suc n) n [] tt)

length-digits_from :
    (fuel n k : ℕ) (acc : Str)
    → n < 10 ^ suc k
    → length (digits_from fuel n acc) ≤ suc k + length acc
unfolding digits_from
length-digits_from zero n k acc h = omega arith
length-digits_from (suc fuel) n zero acc h =
    let small : ltb n 10 ≡ true = ground arith in rw small (omega arith)
length-digits_from (suc fuel) n (suc k) acc h = elim (Bool-cases (ltb n 10)) [
  | inl small ↦ rw small (omega arith)
  | inr large ↦
      let tenth : n / 10 < 10 ^ suc k = omega (arith, pow-suc 10 (suc k)) in
      rw large (omega (arith, length-digits_from fuel (n / 10) k ((48 + n % 10) ∷ acc) tenth))
]

-- A number of `k` digits at most.
pub length-decimal : (n k : ℕ) → n < 10 ^ suc k → length (decimal n) ≤ suc k
unfolding decimal
length-decimal n k h = omega (arith, length-digits_from (suc n) n k [] h)
