-- ===== src/Metrics/Sort.antt =====
-- The insertion sort of `percentile` in pkg/metrics/metrics.go. A latency is a whole number of
-- milliseconds, so a native number stands for each `float64`.
use mathlib.Core.List.{Perm, perm_middle, append-nil}
use mathlib.Core.List.Perm
use firecracker_shim.Base.{
  ℕ, zero, suc, ◌+◌, ◌-◌, ◌≤◌, ◌≡◌, refl, ◌∙◌, ap, sym, subst, ◌++◌, Bool-cases, inl, inr, List, [],
  ◌∷◌, arith, length, ltb, if◌then◌else◌, All,
}

-- `a[i]` for an index within the slice.
abbrev pub get_or : List ℕ → ℕ → ℕ → ℕ
get_or [] i d = d
get_or (x ∷ xs) zero d = x
get_or (x ∷ xs) (suc i) d = get_or xs i d

-- `a[j], a[j+1] = a[j+1], a[j]`.
unfoldable pub swap_next : ℕ → List ℕ → List ℕ
swap_next j [] = []
swap_next j (x ∷ []) = x ∷ []
swap_next zero (x ∷ y ∷ xs) = y ∷ x ∷ xs
swap_next (suc j) (x ∷ y ∷ xs) = x ∷ swap_next j (y ∷ xs)

-- The inner loop: `for j > 0 && a[j-1] > a[j] { swap; j-- }`.
unfoldable pub sift : ℕ → List ℕ → List ℕ
sift zero a = a
sift (suc j) a =
    let rest = sift j (swap_next j a) in if ltb (get_or a (suc j) 0) (get_or a j 0) then rest else a

-- The outer loop: `for i := 1; i < len(a); i++`, with the rounds left.
unfoldable pub sort_from : ℕ → ℕ → List ℕ → List ℕ
unfolding sift
sort_from zero i a = a
sort_from (suc rounds) i a = sort_from rounds (suc i) (sift i a)

unfoldable pub insertion_sort : List ℕ → List ℕ
unfolding sort_from
insertion_sort a = sort_from (length a - 1) 1 a

-- The sorted part of the slice, read from its end.
abbrev onto : List ℕ → List ℕ → List ℕ
onto [] ys = ys
onto (x ∷ xs) ys = onto xs (x ∷ ys)

-- What the inner loop does to that part.
insert_desc : ℕ → List ℕ → List ℕ
insert_desc x [] = x ∷ []
insert_desc x (y ∷ ys) = if ltb x y then y ∷ insert_desc x ys else x ∷ y ∷ ys

get_or-onto : (xs ys : List ℕ) (k d : ℕ) → get_or (onto xs ys) (length xs + k) d ≡ get_or ys k d
get_or-onto [] ys k d = ap (λ i. get_or ys i d) (omega arith)
get_or-onto (x ∷ xs) ys k d =
    ap (λ i. get_or (onto xs (x ∷ ys)) i d) (omega arith) ∙ get_or-onto xs (x ∷ ys) (suc k) d

swap_next-cons : (k x : ℕ) (ys : List ℕ) → swap_next (suc k) (x ∷ ys) ≡ x ∷ swap_next k ys
unfolding swap_next
swap_next-cons k x [] = refl
swap_next-cons k x (y ∷ ys) = refl

swap_next-onto :
    (xs : List ℕ) (k : ℕ) (ys : List ℕ)
    → swap_next (length xs + k) (onto xs ys) ≡ onto xs (swap_next k ys)
swap_next-onto [] k ys = ap (λ i. swap_next i ys) (omega arith)
swap_next-onto (x ∷ xs) k ys =
    ap (λ i. swap_next i (onto xs (x ∷ ys))) (omega arith)
    ∙ swap_next-onto xs (suc k) (x ∷ ys)
    ∙ ap (onto xs) (swap_next-cons k x ys)

-- The inner loop puts one element at its place in the sorted part.
sift-onto :
    (xs : List ℕ) (x : ℕ) (post : List ℕ)
    → sift (length xs) (onto xs (x ∷ post)) ≡ onto (insert_desc x xs) post
unfolding sift insert_desc
sift-onto [] x post = refl
sift-onto (y ∷ ys) x post =
    let a = onto ys (y ∷ x ∷ post) in
    let here : get_or a (suc (length ys)) 0 ≡ x =
      ap (λ i. get_or a i 0) (omega arith) ∙ get_or-onto ys (y ∷ x ∷ post) 1 0 in
    let before : get_or a (length ys) 0 ≡ y =
      ap (λ i. get_or a i 0) (omega arith) ∙ get_or-onto ys (y ∷ x ∷ post) 0 0 in
    let swapped : swap_next (length ys) a ≡ onto ys (x ∷ y ∷ post) =
      ap (λ i. swap_next i a) (omega arith)
      ∙ swap_next-onto ys 0 (y ∷ x ∷ post)
      ∙ unfold swap_next in refl in
    rw (here, before, swapped)
      (elim (Bool-cases (ltb x y)) [ inl b ↦ rw b (sift-onto ys x (y ∷ post)) | inr b ↦ rw b ])

fold_desc : List ℕ → List ℕ → List ℕ
fold_desc xs [] = xs
fold_desc xs (y ∷ ys) = fold_desc (insert_desc y xs) ys

length-insert_desc : (x : ℕ) (xs : List ℕ) → length (insert_desc x xs) ≡ suc (length xs)
unfolding insert_desc
length-insert_desc x [] = refl
length-insert_desc x (y ∷ ys) = ground (arith, length-insert_desc x ys)

sort_from-onto :
    (xs rest : List ℕ)
    → sort_from (length rest) (length xs) (onto xs rest) ≡ onto (fold_desc xs rest) []
unfolding sort_from fold_desc
sort_from-onto xs [] = refl
sort_from-onto xs (y ∷ ys) =
    ap (sort_from (length ys) (suc (length xs))) (sift-onto xs y ys)
    ∙ ap (λ i. sort_from (length ys) i (onto (insert_desc y xs) ys)) (sym (length-insert_desc y xs))
    ∙ sort_from-onto (insert_desc y xs) ys

insertion_sort-fold :
    (x : ℕ) (xs : List ℕ) → insertion_sort (x ∷ xs) ≡ onto (fold_desc (x ∷ []) xs) []
unfolding insertion_sort
insertion_sort-fold x xs =
    let rounds : suc (length xs) - 1 ≡ length xs = omega arith in
    ap (λ n. sort_from n 1 (x ∷ xs)) rounds ∙ sort_from-onto (x ∷ []) xs

-- Order, and what is kept.
abbrev pub Sorted : List ℕ → Type 0
Sorted [] = Unit
Sorted (x ∷ xs) = All (λ y. x ≤ y) xs × Sorted xs

abbrev Desc : List ℕ → Type 0
Desc [] = Unit
Desc (x ∷ xs) = All (λ y. y ≤ x) xs × Desc xs

All-le : {a b : ℕ} (xs : List ℕ) → a ≤ b → All (λ y. y ≤ a) xs → All (λ y. y ≤ b) xs
All-le [] h p = tt
All-le (x ∷ xs) h p = (omega arith, All-le xs h p.1)

All-insert_desc :
    (b x : ℕ) (xs : List ℕ) → x ≤ b → All (λ y. y ≤ b) xs → All (λ y. y ≤ b) (insert_desc x xs)
unfolding insert_desc
All-insert_desc b x [] h p = (h, tt)
All-insert_desc b x (y ∷ ys) h p = ground (arith, All-insert_desc b x ys h p.1)

insert_desc-Desc : (x : ℕ) (xs : List ℕ) → Desc xs → Desc (insert_desc x xs)
unfolding insert_desc
insert_desc-Desc x [] d = (tt, tt)
insert_desc-Desc x (y ∷ ys) d =
    ground (arith, All-insert_desc y x ys, insert_desc-Desc x ys d.1, All-le {a = y} {b = x} ys)

fold_desc-Desc : (xs ys : List ℕ) → Desc xs → Desc (fold_desc xs ys)
unfolding fold_desc
fold_desc-Desc xs [] d = d
fold_desc-Desc xs (y ∷ ys) d = fold_desc-Desc (insert_desc y xs) ys (insert_desc-Desc y xs d)

-- Every element of the first list is at most every element of the second.
abbrev Under : List ℕ → List ℕ → Type 0
Under [] ys = Unit
Under (x ∷ xs) ys = All (λ y. x ≤ y) ys × Under xs ys

Under-cons : (x : ℕ) (xs ys : List ℕ) → All (λ y. y ≤ x) xs → Under xs ys → Under xs (x ∷ ys)
Under-cons x [] ys a u = tt
Under-cons x (z ∷ xs) ys a u = ((a.0, u.0), Under-cons x xs ys a.1 u.1)

onto-Sorted : (xs ys : List ℕ) → Desc xs → Under xs ys → Sorted ys → Sorted (onto xs ys)
onto-Sorted [] ys d u s = s
onto-Sorted (x ∷ xs) ys d u s = onto-Sorted xs (x ∷ ys) d.1 (Under-cons x xs ys d.0 u.1) (u.0, s)

Under-nil : (xs : List ℕ) → Under xs []
Under-nil [] = tt
Under-nil (x ∷ xs) = (tt, Under-nil xs)

pub insertion_sort-Sorted : (a : List ℕ) → Sorted (insertion_sort a)
unfolding insertion_sort
insertion_sort-Sorted [] = tt
insertion_sort-Sorted (x ∷ xs) =
    let d = fold_desc-Desc (x ∷ []) xs (tt, tt) in
    subst Sorted (sym (insertion_sort-fold x xs)) (onto-Sorted _ [] d (Under-nil _) tt)

onto-perm : (xs ys : List ℕ) → Perm (onto xs ys) (xs ++ ys)
onto-perm [] ys = Perm.refl ys
onto-perm (x ∷ xs) ys = Perm.trans (onto-perm xs (x ∷ ys)) (perm_middle xs ys)

insert_desc-perm : (x : ℕ) (xs : List ℕ) → Perm (insert_desc x xs) (x ∷ xs)
unfolding insert_desc
insert_desc-perm x [] = Perm.refl _
insert_desc-perm x (y ∷ ys) = elim (Bool-cases (ltb x y)) [
  | inl b ↦ rw b (Perm.trans (Perm.cons y (insert_desc-perm x ys)) (Perm.swap x y ys))
  | inr b ↦ rw b (Perm.refl _)
]

fold_desc-perm : (xs ys : List ℕ) → Perm (fold_desc xs ys) (ys ++ xs)
unfolding fold_desc
fold_desc-perm xs [] = Perm.refl xs
fold_desc-perm xs (y ∷ ys) =
    Perm.trans (fold_desc-perm (insert_desc y xs) ys)
      (Perm.trans (Perm.append_left ys (insert_desc-perm y xs)) (perm_middle ys xs))

pub insertion_sort-perm : (a : List ℕ) → Perm (insertion_sort a) a
unfolding insertion_sort
insertion_sort-perm [] = Perm.refl []
insertion_sort-perm (x ∷ xs) =
    let whole = onto-perm (fold_desc (x ∷ []) xs) [] in
    let taken = fold_desc-perm (x ∷ []) xs in
    let front = perm_middle {a = x} xs [] in
    rw (insertion_sort-fold x xs)
      (Perm.trans (rw append-nil at whole) (Perm.trans taken (rw append-nil at front)))

-- The slice is sorted in the end, and it holds the same elements as before, as often.
pub insertion_sort_lem : (a : List ℕ) → Sorted (insertion_sort a) × Perm (insertion_sort a) a
insertion_sort_lem a = (insertion_sort-Sorted a, insertion_sort-perm a)
