-- ===== src/Base/Dict.antt =====
-- Go's `map` as an association list, over any key type with a Boolean equality.
-- Go iterates over a map in no fixed order; the order of the list stands for one such order.
use Prim.Native.Nat.{ℕ, ◌+◌, ◌≤◌}
use Prim.Native.String.{String}
use mathlib.Core.Path.{◌≡◌, refl}
use mathlib.Core.Logic.{◌↔◌, ◌≢◌}
use mathlib.Core.Bool.{Bool, true, false}
use mathlib.Core.Option.{Option, none, some}
use mathlib.Core.List.{List, [], ◌∷◌}
use native.Mathlib.Omega.{arith}
use text.Mathlib.Text.{◌==◌ as str_eq}
use text.Mathlib.TextEquality.{eq_iff}
use firecracker_shim.Base.Tests.{◌==◌ as nat_beq, ==_iff, if◌then◌else◌}
use firecracker_shim.Base.Lists.{length}

pub record Eq {ℓ} (A : Type ℓ) : Type ℓ where
  pub beq : A → A → Bool
  pub beq_iff : (a b : A) → (beq a b ≡ true) ↔ (a ≡ b)

infix 50 ◌=?◌
abbrev pub ◌=?◌ {ℓ} : {A : Type ℓ} ⦃e : Eq A⦄ → A → A → Bool
◌=?◌ ⦃e⦄ = e.beq

instance abbrev pub nat_eq : Eq ℕ
nat_eq = record { beq = nat_beq; beq_iff = ==_iff }

instance abbrev pub string_eq : Eq String
string_eq = record { beq = str_eq; beq_iff = eq_iff }

module _ {ℓ} {K : Type ℓ} ⦃e : Eq K⦄ where
  pub =?-refl : (k : K) → (k =? k) ≡ true
  =?-refl k = (e.beq_iff k k).1 refl

  pub =?-ne : (j k : K) → j ≢ k → (j =? k) ≡ false
  =?-ne j k h = ground (arith, e.beq_iff j k)

  pub ne_of_test : (j k : K) → (j =? k) ≡ false → j ≢ k
  ne_of_test j k h = ground (arith, e.beq_iff j k)

module _ {ℓ κ} {K : Type ℓ} {V : Type κ} ⦃e : Eq K⦄ where
  unfoldable pub lookup : K → List (K × V) → Option V
  lookup k [] = none
  lookup k ((j, v) ∷ m) = if j =? k then some v else lookup k m

  unfoldable pub delete : K → List (K × V) → List (K × V)
  delete k [] = []
  delete k ((j, v) ∷ m) = if j =? k then delete k m else (j, v) ∷ delete k m

  unfoldable pub insert : K → V → List (K × V) → List (K × V)
  unfolding delete
  insert k v m = (k, v) ∷ delete k m

  -- How often a key occurs: at most once in a map that the operations built.
  unfoldable pub count : K → List (K × V) → ℕ
  count k [] = 0
  count k ((j, v) ∷ m) = (if j =? k then 1 else 0) + count k m

  pub lookup-delete :
      (k j : K) (m : List (K × V)) → lookup j (delete k m) ≡ (if k =? j then none else lookup j m)
  unfolding lookup delete
  lookup-delete k j [] = ground arith
  lookup-delete k j ((i, v) ∷ m) =
      ground (arith, e.beq_iff k j, e.beq_iff i k, e.beq_iff i j, lookup-delete k j m)

  pub lookup-insert :
      (k j : K) (v : V) (m : List (K × V))
      → lookup j (insert k v m) ≡ (if k =? j then some v else lookup j m)
  unfolding lookup insert
  lookup-insert k j v m = ground (arith, lookup-delete k j m)

  pub count-delete :
      (k j : K) (m : List (K × V)) → count j (delete k m) ≡ (if k =? j then 0 else count j m)
  unfolding count delete
  count-delete k j [] = ground arith
  count-delete k j ((i, v) ∷ m) =
      ground (arith, e.beq_iff k j, e.beq_iff i k, e.beq_iff i j, count-delete k j m)

  pub count-insert :
      (k j : K) (v : V) (m : List (K × V))
      → count j (insert k v m) ≡ (if k =? j then 1 else count j m)
  unfolding count insert
  count-insert k j v m = ground (arith, count-delete k j m)

  pub length-delete_absent :
      (k : K) (m : List (K × V)) → count k m ≡ 0 → length (delete k m) ≡ length m
  unfolding count delete
  length-delete_absent k [] h = refl
  length-delete_absent k ((i, v) ∷ m) h = ground (arith, length-delete_absent k m)

  pub length-delete_le : (k : K) (m : List (K × V)) → length (delete k m) ≤ length m
  unfolding delete
  length-delete_le k [] = omega arith
  length-delete_le k ((i, v) ∷ m) = ground (arith, length-delete_le k m)

  pub lookup-count_zero : (k : K) (m : List (K × V)) → count k m ≡ 0 → lookup k m ≡ none
  unfolding lookup count
  lookup-count_zero k [] h = refl
  lookup-count_zero k ((i, v) ∷ m) h = ground (arith, lookup-count_zero k m)
