-- ===== src/Config/Numerals.antt =====
-- Which texts `strconv.ParseInt` with base 10 and 64 bits reads, and as which numbers.
use mathlib.Core.Option.{none-ne-some, some-injective}
use firecracker_shim.Base.{
  ℕ, ◌+◌, ◌-◌, ◌*◌, ◌^◌, ◌≤◌, ◌<◌, ◌≡◌, refl, sym, ◌∙◌, ap, inl, inr, Option, none, some, [], ◌∷◌,
  ◌==◌, ==_iff, arith, if_then, if_else, Bool-cases, subst,
}
use firecracker_shim.Base.Int.{ℤ, pos, sub_ℕ}
use firecracker_shim.Base.Text.{Text}
use firecracker_shim.Config.Numbers.{
  is_digit, digits_value, within, parse_below, plus, minus, parse_int,
}

-- Digits that, written behind the number `n`, give the number that is the last argument.
pub data Digits : ℕ → Text → ℕ → Type 0 where
  no_more : (n : ℕ) → Digits n [] n
  digit :
      (n c : ℕ) (cs : Text) (m : ℕ)
      → b'0' ≤ c
      → c ≤ b'9'
      → Digits (n * 10 + (c - b'0')) cs m
      → Digits n (c ∷ cs) m

-- Digits with or without a sign, for a number of 64 bits.
pub data Spells : Text → ℤ → Type 0 where
  plain : (c : ℕ) (cs : Text) (n : ℕ) → Digits 0 (c ∷ cs) n → n < 2 ^ 63 → Spells (c ∷ cs) (pos n)
  positive :
      (c : ℕ) (cs : Text) (n : ℕ)
      → Digits 0 (c ∷ cs) n
      → n < 2 ^ 63
      → Spells (b'+' ∷ c ∷ cs) (pos n)
  negative :
      (c : ℕ) (cs : Text) (n : ℕ)
      → Digits 0 (c ∷ cs) n
      → n ≤ 2 ^ 63
      → Spells (b'-' ∷ c ∷ cs) (sub_ℕ 0 n)

digits_value-Digits : (s : Text) (n m : ℕ) → digits_value n s ≡ some m → Digits n s m
unfolding digits_value
digits_value-Digits [] n m e = subst (λ k. Digits n [] k) (some-injective n m e) (no_more n)
digits_value-Digits (c ∷ cs) n m e = elim (Bool-cases (is_digit c)) [
  | inl d ↦
      digit n c cs m (ground (arith, d)) (ground (arith, d))
        (digits_value-Digits cs _ m (sym (if_then _ _ d) ∙ e))
  | inr d ↦ absurd (none-ne-some _ (sym (if_else _ _ d) ∙ e))
]

Digits-digits_value : (s : Text) (n m : ℕ) → Digits n s m → digits_value n s ≡ some m
unfolding digits_value
Digits-digits_value [] n m (no_more _) = refl
Digits-digits_value (c ∷ cs) n m (digit _ _ _ _ lo hi ds) =
    if_then {b = is_digit c} _ _ (ground (arith, lo, hi)) ∙ Digits-digits_value cs _ m ds

within_some : (bound n : ℕ) (o : Option ℕ) → o ≡ some n → n < bound → within bound o ≡ some n
within_some bound n none e h = ground (arith, e)
within_some bound n (some k) e h = ground (arith, e, h)

within_value : (bound n : ℕ) (o : Option ℕ) → within bound o ≡ some n → (o ≡ some n) × (n < bound)
within_value bound n none e = ground (arith, e)
within_value bound n (some k) e = ground (arith, e)

below_reads :
    (bound : ℕ) (c : ℕ) (cs : Text) (n : ℕ)
    → Digits 0 (c ∷ cs) n
    → n < bound
    → parse_below bound (c ∷ cs) ≡ some n
unfolding parse_below
below_reads bound c cs n ds h = within_some bound n _ (Digits-digits_value (c ∷ cs) 0 n ds) h

-- What `parse_below` has read.
below_spelled :
    (bound : ℕ) (s : Text) (n : ℕ)
    → parse_below bound s ≡ some n
    → (c : ℕ) × (cs : Text) × (s ≡ c ∷ cs) × Digits 0 (c ∷ cs) n × (n < bound)
unfolding parse_below
below_spelled bound [] n e = absurd (none-ne-some _ e)
below_spelled bound (c ∷ cs) n e =
    let (v, small) = within_value bound n (digits_value 0 (c ∷ cs)) e in
    (c, cs, refl, digits_value-Digits (c ∷ cs) 0 n v, small)

first_digit : (n c : ℕ) (cs : Text) (m : ℕ) → Digits n (c ∷ cs) m → (b'0' ≤ c) × (c ≤ b'9')
first_digit n c cs m (digit _ _ _ _ lo hi ds) = (lo, hi)

pub Spells-parse_int : (s : Text) (i : ℤ) → Spells s i → parse_int s ≡ some i
unfolding parse_int
Spells-parse_int s i (plain c cs n ds h) =
    let (lo, hi) = first_digit 0 c cs n ds in
    if_else {b = c == b'-'} (minus (parse_below (2 ^ 63 + 1) cs)) _ (ground (arith, lo, hi))
    ∙ if_else {b = c == b'+'} (plus (parse_below (2 ^ 63) cs)) _ (ground (arith, lo, hi))
    ∙ ap plus (below_reads (2 ^ 63) c cs n ds h)
Spells-parse_int s i (positive c cs n ds h) = ap plus (below_reads (2 ^ 63) c cs n ds h)
Spells-parse_int s i (negative c cs n ds h) =
    ap minus (below_reads (2 ^ 63 + 1) c cs n ds (omega (arith, h)))

plus_value : (o : Option ℕ) (i : ℤ) → plus o ≡ some i → (n : ℕ) × (o ≡ some n) × (i ≡ pos n)
plus_value none i e = absurd (none-ne-some _ e)
plus_value (some n) i e = (n, refl, sym (some-injective _ _ e))

minus_value : (o : Option ℕ) (i : ℤ) → minus o ≡ some i → (n : ℕ) × (o ≡ some n) × (i ≡ sub_ℕ 0 n)
minus_value none i e = absurd (none-ne-some _ e)
minus_value (some n) i e = (n, refl, sym (some-injective _ _ e))

pub parse_int-Spells : (s : Text) (i : ℤ) → parse_int s ≡ some i → Spells s i
unfolding parse_int
parse_int-Spells [] i e = absurd (none-ne-some _ e)
parse_int-Spells (c ∷ cs) i e = elim (Bool-cases (c == b'-')) [
  | inl m ↦
      let (n, o, v) = minus_value (parse_below (2 ^ 63 + 1) cs) i (sym (if_then _ _ m) ∙ e) in
      let (d, ds, shape, digits, small) = below_spelled (2 ^ 63 + 1) cs n o in
      subst (λ t. Spells t i)
        (sym (ap (λ x. x ∷ cs) ((==_iff c b'-').0 m) ∙ ap (λ t. b'-' ∷ t) shape))
        (subst (Spells (b'-' ∷ d ∷ ds)) (sym v) (negative d ds n digits (omega (arith, small))))
  | inr m ↦ elim (Bool-cases (c == b'+')) [
    | inl p ↦
        let (n, o, v) =
          plus_value (parse_below (2 ^ 63) cs) i (sym (if_else _ _ m ∙ if_then _ _ p) ∙ e) in
        let (d, ds, shape, digits, small) = below_spelled (2 ^ 63) cs n o in
        subst (λ t. Spells t i)
          (sym (ap (λ x. x ∷ cs) ((==_iff c b'+').0 p) ∙ ap (λ t. b'+' ∷ t) shape))
          (subst (Spells (b'+' ∷ d ∷ ds)) (sym v) (positive d ds n digits small))
    | inr p ↦
        let (n, o, v) =
          plus_value (parse_below (2 ^ 63) (c ∷ cs)) i (sym (if_else _ _ m ∙ if_else _ _ p) ∙ e) in
        let (d, ds, shape, digits, small) = below_spelled (2 ^ 63) (c ∷ cs) n o in
        subst (λ t. Spells t i) (sym shape)
          (subst (Spells (d ∷ ds)) (sym v) (plain d ds n digits small))
  ]
]
