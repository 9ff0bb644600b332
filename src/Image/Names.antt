-- ===== src/Image/Names.antt =====
-- The names that pkg/image makes of image references.
use firecracker_shim.Base.{
  ℕ, true, not, ◌&&◌, ◌||◌, ◌==◌, [], ◌∷◌, ◌++◌, map, if◌then◌else◌, ◌≡◌, refl, ◌∙◌, ap, arith,
  Bool-cases, inl, inr, if_then, if_else,
}
use firecracker_shim.Base.Text.{Text, codes, contains, trim_prefix}

-- A tag is added where there is neither tag nor digest.
abbrev with_tag : Text → Text
with_tag r = if not (contains b':' r) && not (contains b'@' r) then r ++ codes ":latest" else r

abbrev with_library : Text → Text
with_library r = if not (contains b'/' r) then codes "library/" ++ r else r

-- `normalizeRef` of pkg/image/fsify.go.
unfoldable pub normalize_ref : Text → Text
unfolding contains
normalize_ref r = with_library (with_tag r)

-- `strings.NewReplacer("/", "-", ":", "-", "@", "-")`.
abbrev pub safe_char : ℕ → ℕ
safe_char c = if c == b'/' || c == b':' || c == b'@' then b'-' else c

abbrev pub untrimmed : Text → Text
untrimmed r = trim_prefix (codes "library/") (trim_prefix (codes "docker.io/") r)

-- `sanitizeName` of pkg/image/fsify.go.
unfoldable pub sanitize_name : Text → Text
unfolding trim_prefix
sanitize_name r = map safe_char (untrimmed r)

-- The name of the file that `getOutputPath` puts into the output directory.
unfoldable pub output_name : Text → Text
unfolding sanitize_name
output_name r = sanitize_name r ++ codes ".img"

pub contains-append : (c : ℕ) (s t : Text) → contains c (s ++ t) ≡ (contains c s || contains c t)
unfolding contains
contains-append c [] t = refl
contains-append c (x ∷ xs) t = ground (arith, contains-append c xs t)

-- A reference that has a tag or a digest, and a slash, is normal already.
pub normal :
    (r : Text)
    → (contains b':' r || contains b'@' r) ≡ true
    → contains b'/' r ≡ true
    → normalize_ref r ≡ r
unfolding normalize_ref
normal r tagged slashed =
    let as_it_is : with_tag r ≡ r = ground (arith, tagged) in
    ap with_library as_it_is ∙ if_else (codes "library/" ++ r) r (ap not slashed)

with_tag-tagged : (r : Text) → (contains b':' (with_tag r) || contains b'@' (with_tag r)) ≡ true
unfolding contains
with_tag-tagged r = let added = contains-append b':' r (codes ":latest") in ground (arith, added)

with_library-tagged :
    (r : Text)
    → (contains b':' r || contains b'@' r) ≡ true
    → (contains b':' (with_library r) || contains b'@' (with_library r)) ≡ true
with_library-tagged r h =
    ground (
      arith,
      h,
      contains-append b':' (codes "library/") r,
      contains-append b'@' (codes "library/") r,
    )

normalize_ref-tagged :
    (r : Text) → (contains b':' (normalize_ref r) || contains b'@' (normalize_ref r)) ≡ true
unfolding normalize_ref
normalize_ref-tagged r = with_library-tagged (with_tag r) (with_tag-tagged r)

with_library-slashed : (r : Text) → contains b'/' (with_library r) ≡ true
unfolding contains
with_library-slashed r = elim (Bool-cases (contains b'/' r)) [
  | inl b ↦ ap (contains b'/') (if_else _ _ (ap not b)) ∙ b
  | inr b ↦ ap (contains b'/') (if_then _ _ (ap not b)) ∙ contains-append b'/' (codes "library/") r
]

normalize_ref-slashed : (r : Text) → contains b'/' (normalize_ref r) ≡ true
unfolding normalize_ref
normalize_ref-slashed r = with_library-slashed (with_tag r)

-- Normalising a normalised reference changes nothing.
pub normalize_ref_idem : (r : Text) → normalize_ref (normalize_ref r) ≡ normalize_ref r
normalize_ref_idem r = normal (normalize_ref r) (normalize_ref-tagged r) (normalize_ref-slashed r)
