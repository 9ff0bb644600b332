-- ===== src/Base/Text.antt =====
-- Text as a list of code points, where the code walks over it: Go's `strings` on valid UTF-8.
use Prim.Native.Char.{code}
use Prim.Native.String.{String}
use Prim.Native.Nat.{ℕ}
use mathlib.Core.Path.{◌≡◌}
use mathlib.Core.Logic.{◌↔◌}
use mathlib.Core.Bool.{Bool, true, false, ◌&&◌, ◌||◌}
use mathlib.Core.List.{List, [], ◌∷◌}
use mathlib.Core.Option.{Option, none, some}
use native.Mathlib.Omega.{arith}
use firecracker_shim.Base.Dict.{Eq}
use firecracker_shim.Base.Tests.{leb, ◌==◌, ==_iff, if◌then◌else◌}

abbrev pub Text : Type 0
Text = List ℕ

-- A literal. `String` has its own `[]` and `∷`.
abbrev pub codes : String → Text
codes String.[] = []
codes (String.◌∷◌ c s) = code c ∷ codes s

abbrev pub text_beq : Text → Text → Bool
text_beq [] [] = true
text_beq [] (y ∷ ys) = false
text_beq (x ∷ xs) [] = false
text_beq (x ∷ xs) (y ∷ ys) = x == y && text_beq xs ys

pub text_beq_iff : (a b : Text) → (text_beq a b ≡ true) ↔ (a ≡ b)
text_beq_iff [] [] = ground arith
text_beq_iff [] (y ∷ ys) = ground arith
text_beq_iff (x ∷ xs) [] = ground arith
text_beq_iff (x ∷ xs) (y ∷ ys) = ground (arith, text_beq_iff xs ys, ==_iff x y)

instance abbrev pub text_eq : Eq Text
text_eq = record { beq = text_beq; beq_iff = text_beq_iff }

-- `unicode.IsSpace`.
unfoldable pub is_space : ℕ → Bool
is_space c =
    (leb 9 c && leb c 13)
    || c == 32
    || c == 133
    || c == 160
    || c == 5760
    || (leb 8192 c && leb c 8202)
    || c == 8232
    || c == 8233
    || c == 8239
    || c == 8287
    || c == 12288

-- `strings.TrimLeftFunc` and `strings.TrimRightFunc`.
unfoldable pub trim_left : (ℕ → Bool) → Text → Text
trim_left p [] = []
trim_left p (c ∷ cs) = let rest = trim_left p cs in if p c then rest else c ∷ cs

abbrev pub is_nil : Text → Bool
is_nil [] = true
is_nil (_ ∷ _) = false

unfoldable pub trim_right : (ℕ → Bool) → Text → Text
trim_right p [] = []
trim_right p (c ∷ cs) = let rest = trim_right p cs in if p c && is_nil rest then [] else c ∷ rest

-- `strings.Trim` with the set of the code points that pass, and `strings.TrimSpace`.
unfoldable pub trim : (ℕ → Bool) → Text → Text
unfolding trim_left trim_right
trim p s = trim_right p (trim_left p s)

unfoldable pub trim_space : Text → Text
unfolding trim is_space
trim_space s = trim is_space s

-- `strings.Split` at one code point: never the empty list.
abbrev onto_first : ℕ → List Text → List Text
onto_first c [] = (c ∷ []) ∷ []
onto_first c (l ∷ ls) = (c ∷ l) ∷ ls

unfoldable pub split : ℕ → Text → List Text
split sep [] = [] ∷ []
split sep (c ∷ cs) = let rest = split sep cs in if c == sep then [] ∷ rest else onto_first c rest

-- `strings.SplitN(s, sep, 2)`: the text before the first separator, and the text behind it.
abbrev before_more : ℕ → Option (Text × Text) → Option (Text × Text)
before_more c none = none
before_more c (some (l, r)) = some (c ∷ l, r)

unfoldable pub cut : ℕ → Text → Option (Text × Text)
cut sep [] = none
cut sep (c ∷ cs) = let rest = cut sep cs in if c == sep then some ([], cs) else before_more c rest

-- `strings.HasPrefix` and `strings.HasSuffix` of one code point.
abbrev pub begins_with : ℕ → Text → Bool
begins_with p [] = false
begins_with p (c ∷ cs) = c == p

unfoldable pub ends_with : ℕ → Text → Bool
ends_with p [] = false
ends_with p (c ∷ []) = c == p
ends_with p (c ∷ d ∷ cs) = ends_with p (d ∷ cs)

-- `strings.Contains` of one code point.
unfoldable pub contains : ℕ → Text → Bool
contains c [] = false
contains c (x ∷ xs) = x == c || contains c xs

-- What follows a prefix, and `strings.HasPrefix` and `strings.TrimPrefix`.
unfoldable pub after_prefix : Text → Text → Option Text
after_prefix [] s = some s
after_prefix (p ∷ ps) [] = none
after_prefix (p ∷ ps) (c ∷ cs) = let rest = after_prefix ps cs in if p == c then rest else none

abbrev pub or_whole : Text → Option Text → Text
or_whole s none = s
or_whole s (some rest) = rest

unfoldable pub trim_prefix : Text → Text → Text
unfolding after_prefix
trim_prefix p s = or_whole s (after_prefix p s)
