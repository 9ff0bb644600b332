-- ===== src/Image/Collision.antt =====
-- Different image references for which pkg/image/fsify.go writes the same file.
use firecracker_shim.Base.{
  ℕ, true, false, ◌||◌, ◌==◌, [], ◌∷◌, ◌++◌, map, ◌≡◌, ◌≢◌, refl, ◌∙◌, sym, ap, arith,
}
use firecracker_shim.Base.Text.{Text, codes, contains, after_prefix, trim_prefix}
use firecracker_shim.Image.Names.{
  normalize_ref, normal, contains-append, safe_char, untrimmed, output_name,
}

untrimmed-keep :
    (c : ℕ) (cs : Text) → (b'd' == c) ≡ false → (b'l' == c) ≡ false → untrimmed (c ∷ cs) ≡ c ∷ cs
unfolding trim_prefix after_prefix
untrimmed-keep c cs d l = ground (arith, d, l)

tails_differ : (a b : Text) → a ++ b'/' ∷ b ≢ a ++ b'-' ∷ b
tails_differ [] b e = ground (arith, e)
tails_differ (x ∷ a) b e = tails_differ a b (ground (arith, e))

same_safe : (a b : Text) → map safe_char (a ++ b'/' ∷ b) ≡ map safe_char (a ++ b'-' ∷ b)
same_safe [] b = refl
same_safe (x ∷ a) b = ap (λ t. safe_char x ∷ t) (same_safe a b)

-- Two references that differ in one place only, where one has a slash and the other a dash, are both
-- normal and yet get the same output file: as long as they do not begin with the `d` or the `l` of a
-- prefix that is removed, a slash stands before that place, and a tag or digest behind it.
pub output_name_collides :
    (c : ℕ) (a b : Text)
    → (b'd' == c) ≡ false
    → (b'l' == c) ≡ false
    → contains b'/' (c ∷ a) ≡ true
    → (contains b':' b || contains b'@' b) ≡ true
    → let with_slash = c ∷ (a ++ b'/' ∷ b) in
      let with_dash = c ∷ (a ++ b'-' ∷ b) in
      (normalize_ref with_slash ≡ with_slash)
      × (normalize_ref with_dash ≡ with_dash)
      × (with_slash ≢ with_dash)
      × (output_name with_slash ≡ output_name with_dash)
unfolding output_name contains
output_name_collides c a b d l slashed tagged =
    let at = λ (x y : ℕ). contains-append x a (y ∷ b) in
    let c1 = at b':' b'/' in
    let c2 = at b'@' b'/' in
    let c3 = at b'/' b'/' in
    let c4 = at b':' b'-' in
    let c5 = at b'@' b'-' in
    let c6 = at b'/' b'-' in
    (
      normal (c ∷ (a ++ b'/' ∷ b)) (ground (arith, tagged, c1, c2)) (ground (arith, c3)),
      normal (c ∷ (a ++ b'-' ∷ b)) (ground (arith, tagged, c4, c5)) (ground (arith, slashed, c6)),
      λ e. tails_differ a b (ground (arith, e)),
      ap (λ t. map safe_char t ++ codes ".img") (untrimmed-keep c (a ++ b'/' ∷ b) d l)
          ∙ ap (λ t. t ++ codes ".img") (same_safe (c ∷ a) b)
          ∙ sym (ap (λ t. map safe_char t ++ codes ".img") (untrimmed-keep c (a ++ b'-' ∷ b) d l)),
    )
