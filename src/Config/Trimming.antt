-- ===== src/Config/Trimming.antt =====
-- What the text functions do on the texts that a configuration file is written with.
use firecracker_shim.Base.{
  ℕ, ◌≡◌, refl, ◌∙◌, ap, Bool, true, false, some, [], ◌∷◌, ◌++◌, All, ◌==◌, if_then, if_else, arith,
}
use firecracker_shim.Base.Text.{Text, trim_left, trim_right, trim, split, cut, ends_with}

-- No code point of the text passes the test.
abbrev pub Free : (ℕ → Bool) → Text → Type 0
Free p = All (λ c. p c ≡ false)

pub split-line :
    (l rest : Text) (sep : ℕ)
    → Free (λ c. c == sep) l
    → split sep (l ++ sep ∷ rest) ≡ l ∷ split sep rest
unfolding split
split-line [] rest sep f = ground arith
split-line (c ∷ cs) rest sep f = ground (arith, f.0, split-line cs rest sep f.1)

pub cut-at :
    (l rest : Text) (sep : ℕ) → Free (λ c. c == sep) l → cut sep (l ++ sep ∷ rest) ≡ some (l, rest)
unfolding cut
cut-at [] rest sep f = ground arith
cut-at (c ∷ cs) rest sep f = ground (arith, f.0, cut-at cs rest sep f.1)

module _ (p : ℕ → Bool) where
  pub trim_left-keep : (c : ℕ) (cs : Text) → p c ≡ false → trim_left p (c ∷ cs) ≡ c ∷ cs
  unfolding trim_left
  trim_left-keep c cs h = if_else _ _ h

  pub trim_left-drop : (c : ℕ) (cs : Text) → p c ≡ true → trim_left p (c ∷ cs) ≡ trim_left p cs
  unfolding trim_left
  trim_left-drop c cs h = if_then _ _ h

  pub trim_right-head :
      (c : ℕ) (cs : Text) → p c ≡ false → trim_right p (c ∷ cs) ≡ c ∷ trim_right p cs
  unfolding trim_right
  trim_right-head c cs h = rw h refl

  -- The last code point stays, and so does what is before it.
  pub trim_right-keep : (l : Text) (c : ℕ) → p c ≡ false → trim_right p (l ++ c ∷ []) ≡ l ++ c ∷ []
  unfolding trim_right
  trim_right-keep [] c h = rw h refl
  trim_right-keep (d ∷ []) c h = ground (arith, trim_right-keep [] c h)
  trim_right-keep (d ∷ e ∷ l) c h = ground (arith, trim_right-keep (e ∷ l) c h)

  pub trim_right-drop : (l : Text) (c : ℕ) → Free p l → p c ≡ true → trim_right p (l ++ c ∷ []) ≡ l
  unfolding trim_right
  trim_right-drop [] c f h = rw h refl
  trim_right-drop (d ∷ l) c f h = ground (arith, f.0, trim_right-drop l c f.1 h)

  -- A text between two code points that are trimmed.
  pub trim-inner :
      (l : Text) (a b : ℕ) → Free p l → p a ≡ true → p b ≡ true → trim p (a ∷ (l ++ b ∷ [])) ≡ l
  unfolding trim
  trim-inner [] a b f ha hb =
      ap (trim_right p) (trim_left-drop a (b ∷ []) ha ∙ trim_left-drop b [] hb)
  trim-inner (c ∷ cs) a b f ha hb =
      ap (trim_right p) (trim_left-drop a (c ∷ (cs ++ b ∷ [])) ha ∙ trim_left-keep c _ f.0)
      ∙ trim_right-drop (c ∷ cs) b f hb

  -- A text between two code points that stay.
  pub trim-solid :
      (l : Text) (a b : ℕ)
      → p a ≡ false
      → p b ≡ false
      → trim p (a ∷ (l ++ b ∷ [])) ≡ a ∷ (l ++ b ∷ [])
  unfolding trim
  trim-solid l a b ha hb = ap (trim_right p) (trim_left-keep a _ ha) ∙ trim_right-keep (a ∷ l) b hb

pub ends_with-last : (c : ℕ) (a : ℕ) (l : Text) → ends_with c (a ∷ (l ++ c ∷ [])) ≡ true
unfolding ends_with
ends_with-last c a [] = ground arith
ends_with-last c a (b ∷ l) = ends_with-last c b l
