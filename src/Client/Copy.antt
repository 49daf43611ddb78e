-- ===== src/Client/Copy.antt =====
-- `copy` of mock_client/main.c, on what the calls of `read` and `write` return one after the other.
use datacomm_chat_server.Prelude.{
  ℕ, zero, suc, ◌≡◌, ◌<◌, ◌≤◌, ◌+◌, ◌*◌, ◌%◌, ◌^◌, [], ◌++◌, Option, some, none, ℤ, pos, arith,
  length, leb, take, if◌then◌else◌, Option-cases, refl, inl, inr, Bool-cases, length-append,
  length-take,
}
use datacomm_chat_server.CString.{Str}

-- One round: what `read` delivers, `none` for -1, and how many bytes the `write` of it takes.
pub record Transfer : Type 0 where
  pub read : Option Str
  pub written : Option ℕ

-- The loop from round `i` on: `total` is `total_rbytes`, and `out` what was written so far. On fuel,
-- which `copy_ends` shows to be enough.
unfoldable pub copy_loop : ℕ → (ℕ → Transfer) → ℕ → ℕ → ℕ → Str → Option (ℤ × Str)
copy_loop zero rounds count i total out = none
copy_loop (suc fuel) rounds count i total out = elim (rounds i).read [
  | none ↦ some (pos 1, out)
  | some buffer ↦ if leb (length buffer) 0 then some (pos 0, out) else elim (rounds i).written [
    | none ↦ some (pos 1, out)
    | some wbytes ↦
        let after = (total + wbytes) % 2 ^ 64 in
        let sent = out ++ take wbytes buffer in
        if leb count after
        then some (pos 0, sent)
        else copy_loop fuel rounds count (i + 1) after sent
  ]
]

unfoldable pub copy : (ℕ → Transfer) → ℕ → Option (ℤ × Str)
unfolding copy_loop
copy rounds count = copy_loop (count + 1) rounds count 0 0 []

-- `read` delivers no more than was asked for; `write` takes no more than it was given, and at least
-- one byte where it does not fail.
pub record IsTransfer (count : ℕ) (r : Transfer) : Type 0 where
  pub read_at_most : (buffer : Str) → r.read ≡ some buffer → length buffer ≤ count
  pub written_some :
      (buffer : Str) (n : ℕ)
      → r.read ≡ some buffer
      → r.written ≡ some n
      → 0 < length buffer
      → (0 < n) × (n ≤ length buffer)

-- The loop ends, and has then written less than twice what was asked for.
Ends : ℕ → Option (ℤ × Str) → Type 0
Ends count result =
    (code : ℤ) × (out : Str) × (result ≡ some (code, out)) × (length out ≤ 2 * count)

copy_loop-Ends :
    (rounds : ℕ → Transfer) (count fuel i total : ℕ) (out : Str)
    → ((j : ℕ) → IsTransfer count (rounds j))
    → count < 2 ^ 62
    → length out ≡ total
    → total ≤ count
    → count < total + fuel
    → Ends count (copy_loop fuel rounds count i total out)
unfolding copy_loop Ends
copy_loop-Ends rounds count zero i total out io small sum below enough = absurd (omega arith)
copy_loop-Ends rounds count (suc fuel) i total out io small sum below enough =
    elim (Option-cases (rounds i).read) [
      | inl failed ↦ rw (copy_loop, failed) (pos 1, out, refl, omega arith)
      | inr (buffer, got) ↦ elim (Bool-cases (leb (length buffer) 0)) [
        | inl done ↦ rw (copy_loop, got, done) (pos 0, out, refl, omega arith)
        | inr more ↦ elim (Option-cases (rounds i).written) [
          | inl failed ↦ rw (copy_loop, got, more, failed) (pos 1, out, refl, omega arith)
          | inr (wbytes, wrote) ↦
              let read_at_most = (io i).read_at_most buffer got in
              let bounds = (io i).written_some buffer wbytes got wrote (ground arith) in
              let sent = out ++ take wbytes buffer in
              let size : length sent ≡ total + wbytes =
                omega (arith, length-append out (take wbytes buffer), length-take wbytes buffer) in
              let after : (total + wbytes) % 2 ^ 64 ≡ total + wbytes = omega arith in
              elim (Bool-cases (leb count (total + wbytes))) [
                | inl full ↦
                    rw (copy_loop, got, more, wrote, after, full) (pos 0, sent, refl, omega arith)
                | inr rest ↦
                    rw (copy_loop, got, more, wrote, after, rest)
                      (copy_loop-Ends rounds count fuel (i + 1) (total + wbytes) sent io small size
                        (ground arith) (omega arith))
              ]
        ]
      ]
    ]

-- Where each `read` delivers no more than was asked for and each `write` that does not fail takes at
-- least a byte and no more than it was given: `copy` ends after at most one round more than the bytes
-- asked for, and has written no more than twice as many bytes, for a count below 2 ^ 62.
pub copy_ends :
    (rounds : ℕ → Transfer) (count : ℕ)
    → ((j : ℕ) → IsTransfer count (rounds j))
    → count < 2 ^ 62
    → (code : ℤ) × (out : Str) × (copy rounds count ≡ some (code, out)) × (length out ≤ 2 * count)
unfolding copy Ends
copy_ends rounds count io small =
    copy_loop-Ends rounds count (count + 1) 0 0 [] io small refl (omega arith) (omega arith)
