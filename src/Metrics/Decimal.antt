-- ===== src/Metrics/Decimal.antt =====
-- `itoa` and `appendInt` of pkg/metrics/metrics.go, on bytes. An int64 is an integer that its
-- operations wrap to 64 bits.
use native.Mathlib.Numerals.{unary_clauses}
use mathlib.Core.Option.{none-ne-some, some-injective}
use firecracker_shim.Base.{
  ℕ, zero, suc, ◌+◌, ◌-◌, ◌*◌, ◌/◌, ◌%◌, ◌^◌, ◌≤◌, ◌<◌, ◌≡◌, refl, sym, ◌∙◌, ap, List, [], ◌∷◌,
  ◌++◌, arith, ◌==◌, Bool-cases, inl, inr, if◌then◌else◌, if_then, if_else, All, subst, Option,
  none, some,
}
use firecracker_shim.Base.Int.{sub_ℕ, ℤ, pos, negsuc, ◌-ℤ◌, wrap64}

-- `for i > 0 { j--; tmp[j] = '0' + i%10; i /= 10 }` with j slots of the array left and `tmp[j:]`
-- written so far. `tmp[-1]` is a panic: `none`.
unfoldable pub fill : ℕ → ℕ → List ℕ → Option (List ℕ)
fill zero i tmp = if i == 0 then some tmp else none
fill (suc j) i tmp =
    let rest = fill j (i / 10) ((48 + i % 10) ∷ tmp) in if i == 0 then some tmp else rest

-- `append(b, tmp[j:]...)`.
abbrev append_tmp : List ℕ → Option (List ℕ) → Option (List ℕ)
append_tmp b none = none
append_tmp b (some tmp) = some (b ++ tmp)

-- The loop runs while i > 0, so on an i that is not positive it writes nothing.
unfoldable pub append_digits : List ℕ → ℤ → Option (List ℕ)
unfolding fill
append_digits b (pos i) = append_tmp b (fill 20 i [])
append_digits b (negsuc i) = some (b ++ [])

unfoldable pub append_int : List ℕ → ℤ → Option (List ℕ)
unfolding append_digits
append_int b (pos zero) = some (b ++ 48 ∷ [])
append_int b (pos (suc i)) = append_digits b (pos (suc i))
append_int b (negsuc i) = append_digits (b ++ 45 ∷ []) (wrap64 (pos 0 -ℤ negsuc i))

unfoldable pub itoa : ℤ → Option (List ℕ)
unfolding append_int
itoa i = append_int [] i

-- What a reader of the exported text makes of the bytes of a number.
unfoldable pub read_digits : ℕ → List ℕ → ℕ
read_digits acc [] = acc
read_digits acc (c ∷ cs) = read_digits (acc * 10 + (c - 48)) cs

unfoldable pub read_int : List ℕ → ℤ
unfolding read_digits
read_int [] = pos 0
read_int (c ∷ cs) = if c == 45 then sub_ℕ 0 (read_digits 0 cs) else pos (read_digits 0 (c ∷ cs))

lt-pow : (j i : ℕ) → i < 10 ^ suc j → i / 10 < 10 ^ j
lt-pow j i h =
    let p : 10 ^ suc j ≡ 10 * 10 ^ j = simp unary_clauses (omega arith) in omega (arith, p)

-- With enough slots for the digits, the loop ends, and what it wrote reads back.
fill_reads :
    (j i : ℕ) (tmp : List ℕ)
    → i < 10 ^ j
    → (r : List ℕ) × (fill j i tmp ≡ some r) × (read_digits 0 r ≡ read_digits i tmp)
unfolding fill read_digits
fill_reads zero i tmp h = (tmp, ground arith, ap (λ n. read_digits n tmp) (omega arith))
fill_reads (suc j) i tmp h = elim (Bool-cases (i == 0)) [
  | inl b ↦ (tmp, rw b refl, ap (λ n. read_digits n tmp) (ground arith))
  | inr b ↦
      let fits : i / 10 < 10 ^ j = lt-pow j i h in
      let (r, e, v) = fill_reads j (i / 10) ((48 + i % 10) ∷ tmp) fits in
      (r, rw b e, v ∙ ap (λ n. read_digits n tmp) (omega arith))
]

abbrev pub IsDigit : ℕ → Type 0
IsDigit c = (48 ≤ c) × (c ≤ 57)

fill-digits : (j i : ℕ) (tmp r : List ℕ) → All IsDigit tmp → fill j i tmp ≡ some r → All IsDigit r
unfolding fill
fill-digits zero i tmp r a e = elim (Bool-cases (i == 0)) [
  | inl b ↦ subst (All IsDigit) (some-injective _ _ (sym (if_then _ _ b) ∙ e)) a
  | inr b ↦ absurd (none-ne-some _ (sym (if_else _ _ b) ∙ e))
]
fill-digits (suc j) i tmp r a e = elim (Bool-cases (i == 0)) [
  | inl b ↦ subst (All IsDigit) (some-injective _ _ (sym (if_then _ _ b) ∙ e)) a
  | inr b ↦
      fill-digits j (i / 10) ((48 + i % 10) ∷ tmp) r ((omega arith, omega arith), a)
        (sym (if_else _ _ b) ∙ e)
]

read_int-digits : (r : List ℕ) → All IsDigit r → read_int r ≡ pos (read_digits 0 r)
unfolding read_int
read_int-digits [] a = refl
read_int-digits (c ∷ cs) a =
    if_else (sub_ℕ 0 (read_digits 0 cs)) (pos (read_digits 0 (c ∷ cs))) (ground (arith, a.0))

-- The bytes of a number that is not negative are digits.
pub itoa-digits :
    (i : ℕ)
    → i < 2 ^ 63
    → (r : List ℕ) × (itoa (pos i) ≡ some r) × All IsDigit r × (read_int r ≡ pos i)
unfolding itoa read_int
itoa-digits zero h = (48 ∷ [], refl, ((omega arith, omega arith), tt), refl)
itoa-digits (suc i) h =
    let (r, e, v) = fill_reads 20 (suc i) [] (omega arith) in
    let digits = fill-digits 20 (suc i) [] r tt e in
    (r, ap (append_tmp []) e, digits, read_int-digits r digits ∙ ap pos v)
