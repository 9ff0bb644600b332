-- ===== src/Metrics/Window.antt =====
-- `appendWithLimit` of pkg/metrics/metrics.go: a window of the latest values.
use Prim.Native.Nat.{min}
use mathlib.Core.List.{append-nil, append_assoc}
use firecracker_shim.Base.{
  leb→le, Bool-cases, inl, inr, ap, sym, ◌∙◌, ℕ, zero, suc, ◌-◌, ◌≤◌, ◌<◌, ◌≡◌, refl, List, [], ◌∷◌,
  ◌++◌, arith, length, length-append, leb, if◌then◌else◌,
}

-- `slice[1:]`.
abbrev pub tail : List ℕ → List ℕ
tail [] = []
tail (x ∷ xs) = xs

unfoldable pub append_with_limit : List ℕ → ℕ → ℕ → List ℕ
append_with_limit slice value limit =
    let kept = if leb limit (length slice) then tail slice else slice in kept ++ value ∷ []

-- The values that a run of calls appends, oldest first.
abbrev pub append_all : List ℕ → List ℕ → ℕ → List ℕ
append_all slice [] limit = slice
append_all slice (v ∷ vs) limit = append_all (append_with_limit slice v limit) vs limit

abbrev pub drop : ℕ → List ℕ → List ℕ
drop zero xs = xs
drop (suc n) [] = []
drop (suc n) (x ∷ xs) = drop n xs

length-tail : (xs : List ℕ) → length (tail xs) ≡ length xs - 1
length-tail [] = omega arith
length-tail (x ∷ xs) = omega arith

pub length-append_with_limit :
    (slice : List ℕ) (v limit : ℕ)
    → 0 < limit
    → length slice ≤ limit
    → length (append_with_limit slice v limit) ≤ limit
unfolding append_with_limit
length-append_with_limit slice v limit h le =
    ground
      (arith, length-append slice (v ∷ []), length-append (tail slice) (v ∷ []), length-tail slice)

length-append_short :
    (slice : List ℕ) (v limit : ℕ)
    → length slice < limit
    → append_with_limit slice v limit ≡ slice ++ v ∷ []
unfolding append_with_limit
length-append_short slice v limit h = ground arith

length-drop : (n : ℕ) (xs : List ℕ) → length (drop n xs) ≡ length xs - n
length-drop zero xs = omega arith
length-drop (suc n) [] = omega arith
length-drop (suc n) (x ∷ xs) = omega (arith, length-drop n xs)

drop-nil : (n : ℕ) → drop n [] ≡ []
drop-nil zero = refl
drop-nil (suc n) = refl

tail-drop : (n : ℕ) (xs : List ℕ) → tail (drop n xs) ≡ drop (suc n) xs
tail-drop zero [] = refl
tail-drop zero (x ∷ xs) = refl
tail-drop (suc n) [] = refl
tail-drop (suc n) (x ∷ xs) = tail-drop n xs

drop-append : (n : ℕ) (xs ys : List ℕ) → n ≤ length xs → drop n xs ++ ys ≡ drop n (xs ++ ys)
drop-append zero xs ys h = refl
drop-append (suc n) [] ys h = absurd (omega arith)
drop-append (suc n) (x ∷ xs) ys h = drop-append n xs ys (omega arith)

-- The last `limit` values of a history.
abbrev pub latest : ℕ → List ℕ → List ℕ
latest limit h = drop (length h - limit) h

-- One call on the window of a history gives the window of the longer history.
append-latest :
    (h : List ℕ) (v limit : ℕ)
    → 0 < limit
    → append_with_limit (latest limit h) v limit ≡ latest limit (h ++ v ∷ [])
unfolding append_with_limit
append-latest h v limit pos =
    let size = length-drop (length h - limit) h in
    let longer = length-append h (v ∷ []) in
    elim (Bool-cases (leb limit (length (latest limit h)))) [
      | inl b ↦
          let one_more : suc (length h - limit) ≡ length (h ++ v ∷ []) - limit =
            omega (arith, leb→le _ _ b, size, longer) in
          rw b (
            ap (λ xs. xs ++ v ∷ []) (tail-drop (length h - limit) h)
            ∙ drop-append (suc (length h - limit)) h (v ∷ []) (omega (arith, leb→le _ _ b, size))
            ∙ ap (λ n. drop n (h ++ v ∷ [])) one_more)
      | inr b ↦
          let short : length h < limit = ground (arith, size) in
          let none_gone : length h - limit ≡ 0 = omega arith in
          let none_gone' : length (h ++ v ∷ []) - limit ≡ 0 = omega (arith, longer) in
          rw b (
            ap (λ n. drop n h ++ v ∷ []) none_gone
            ∙ sym (ap (λ n. drop n (h ++ v ∷ [])) none_gone'))
    ]

append_all-latest :
    (h vs : List ℕ) (limit : ℕ)
    → 0 < limit
    → append_all (latest limit h) vs limit ≡ latest limit (h ++ vs)
append_all-latest h [] limit pos = rw append-nil
append_all-latest h (v ∷ vs) limit pos =
    ap (λ s. append_all s vs limit) (append-latest h v limit pos)
    ∙ append_all-latest (h ++ v ∷ []) vs limit pos
    ∙ ap (latest limit) (append_assoc h (v ∷ []) vs)

-- After any run of calls of `appendWithLimit` with a positive limit on a window that began empty, it
-- holds exactly the last values of the run, `limit` of them or all if there are fewer, in the order
-- in which they came.
pub window_holds_latest :
    (vs : List ℕ) (limit : ℕ)
    → 0 < limit
    → (append_all [] vs limit ≡ latest limit vs)
      × (length (append_all [] vs limit) ≡ min limit (length vs))
window_holds_latest vs limit pos =
    let e : append_all [] vs limit ≡ latest limit vs =
      ap (λ s. append_all s vs limit) (sym (drop-nil (0 - limit)))
      ∙ append_all-latest [] vs limit pos in
    (e, rw e (omega (arith, length-drop (length vs - limit) vs)))
