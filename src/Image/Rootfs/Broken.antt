-- ===== src/Image/Rootfs/Broken.antt =====
-- What the service of pkg/image/rootfs.go makes of an image whose conversion failed half way.
use firecracker_shim.Base.{true, Option, none, some, ◌∷◌, lookup, ◌≡◌, refl, arith}
use firecracker_shim.Base.Text.{Text, text_eq}
use firecracker_shim.Image.Tools.{ToolEnv, Effects, ImageError, Result, good, bad, ran}
use firecracker_shim.Image.Rootfs.{
  ImageService, pull_command, rootfs_file, pull, cache_result, pull_missing, CachedImage,
  convert_to_block_device,
}

cache_result-failed :
    (s : ImageService) (r : Text) (x : Effects × Result Text) (e : ImageError)
    → (cache_result s r x).1.1 ≡ bad e
    → (cache_result s r x).0 ≡ s
unfolding cache_result
cache_result-failed s r (fx, good path) e h = ground (arith, h)
cache_result-failed s r (fx, bad f) e h = refl

-- A pull that fails leaves the service as it was, and had no entry for the image.
pull-failed :
    (s : ImageService) (env : ToolEnv) (r : Text) (fx : Effects) (e : ImageError)
    (found : Option CachedImage)
    → (pull_missing s env r found fx).1.1 ≡ bad e
    → (found ≡ none) × ((pull_missing s env r found fx).0 ≡ s)
unfolding cache_result pull_missing
pull-failed s env r fx e none h = (refl, cache_result-failed s r _ e h)
pull-failed s env r fx e (some i) h = ground (arith, h)

-- Where an image cannot be converted, as `mkfs` fails, or whatever else, nothing is cached; but if
-- the conversion left a file in its place, the next `Pull`, when `ctr images pull` succeeds, runs
-- no conversion and gives that file for the image's root file system.
pub pull_after_failure :
    (s : ImageService) (env later : ToolEnv) (r : Text) (fx gx : Effects) (e : ImageError)
    → (pull s env r fx).1.1 ≡ bad e
    → later.exists (rootfs_file s.config r) ≡ true
    → later.runs (pull_command s.config r) ≡ true
    → ((pull (pull s env r fx).0 later r gx).1
        ≡ (ran (pull_command s.config r) ∷ gx, good (rootfs_file s.config r)))
unfolding cache_result pull_missing pull convert_to_block_device
pull_after_failure s env later r fx gx e failed there pulls =
    let (absent, same) = pull-failed s env r fx e (lookup r s.cache) failed in
    rw (same, absent) (ground (arith, there, pulls))
