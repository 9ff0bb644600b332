-- ===== src/Image/Tidy.antt =====
-- Which images the steps of a conversion of pkg/image/fsify.go leave mounted.
pub mod Reported
use firecracker_shim.Base.{
  ℕ, ◌++◌, Bool, true, false, not, Option, none, some, List, [], ◌∷◌, if◌then◌else◌, ◌=?◌, =?-refl,
  ◌≡◌, ◌⊎◌, inl, inr, refl, sym, ap, ◌∙◌, arith, choose, Bool-cases,
}
use firecracker_shim.Base.Int.{ℤ, pos, ◌+ℤ◌, wrap64}
use firecracker_shim.Base.Text.{Text, codes, text_eq, text_beq_iff}
use firecracker_shim.Image.Tools.{
  join, Command, ImageError, ImageEffect, Effects, ran, made_dir, created, truncated, removed,
  removed_tree, wrote_config, mounted, unmounted, OciConfig, ToolEnv, Result, good, bad, run_or,
  then_, finally, succeed, mount_dir_failed, mount_failed, dd_failed, mkfs_failed, pull_failed,
  unpack_failed, tool_failed,
}
use firecracker_shim.Image.Names.{sanitize_name}
use firecracker_shim.Image.Filesystem.{
  bytes, dd, mkfs, disk_size, create_sparse, allocate, synced, copy_tree, copy_into, fill_image,
  source_dir, create_filesystem_image, create_squashfs,
}
use firecracker_shim.Image.Oci.{extract_oci_config, extract_oci_config_from_dir, embed_oci_config}
use firecracker_shim.Image.Fsify.{FsifyConfig, ConvertedImage, output_path}
use firecracker_shim.Image.Conversion.{
  pull_image, unpack_image, cli_command, cli_result, convert_with_cli, squashfs_result,
  native_result, sized, unpacked, convert_in, convert_native, run_conversion,
}

-- A directory on which an image was mounted, with no call of `umount` since.
unfoldable pub still_mounted : Text → Effects → Bool
still_mounted d [] = false
still_mounted d (mounted ro p e ∷ fx) = if e =? d then true else still_mounted d fx
still_mounted d (unmounted e ∷ fx) = if e =? d then false else still_mounted d fx
still_mounted d (_ ∷ fx) = still_mounted d fx

abbrev pub Quiet : Effects → Type 0
Quiet fx = (d : Text) → still_mounted d fx ≡ false

-- No mount is left, and a result is as `P` says.
abbrev pub Tidy {ℓ} : {A : Type ℓ} → (A → Type 0) → Effects × Result A → Type 0
Tidy P (fx, good a) = Quiet fx × P a
Tidy P (fx, bad e) = Quiet fx

abbrev pub Any : Unit {0} → Type 0
Any u = Unit {0}

module _ {ℓ} {A : Type ℓ} (P : A → Type 0) where
  pub Tidy-run_or :
      (env : ToolEnv) (c : Command) (e : ImageError) (fx : Effects)
      (next : Effects → Effects × Result A)
      → Quiet fx
      → ((g : Effects) → Quiet g → Tidy P (next g))
      → Tidy P (run_or env c e fx next)
  unfolding still_mounted
  Tidy-run_or env c e fx next h k = choose (Tidy P) (env.runs c) _ _ (k (ran c ∷ fx) h) h

  pub Tidy-then_ :
      (x : Effects × Result (Unit {0})) (next : Effects → Effects × Result A)
      → Tidy Any x
      → ((g : Effects) → Quiet g → Tidy P (next g))
      → Tidy P (then_ x next)
  Tidy-then_ (fx, good u) next h k = k fx h.0
  Tidy-then_ (fx, bad e) next h k = h

pub allocate-Tidy :
    (env : ToolEnv) (b : Bool) (path : Text) (n : ℤ) (fx : Effects)
    → Quiet fx
    → Tidy Any (allocate env b path n fx)
unfolding still_mounted
allocate-Tidy env true path n fx h =
    choose (Tidy Any) (env.runs _) _ _ (h, tt)
      (Tidy-run_or Any env (dd path n) dd_failed _ succeed h (λ g q. (q, tt)))
allocate-Tidy env false path n fx h =
    choose (Tidy Any) (env.create_ok path) _ _
      (choose (Tidy Any) (env.truncate_ok path) _ _ (h, tt) h) h

pub unmounted-Quiet :
    (dir : Text) (fx : Effects)
    → ((d : Text) → (dir =? d) ≡ false → still_mounted d fx ≡ false)
    → Quiet (removed_tree dir ∷ unmounted dir ∷ fx)
unfolding still_mounted
unmounted-Quiet dir fx h d = ground (arith, h d)

pub copied-Quiet :
    (dir path : Text) (c : Command) (sync : Bool) (fx : Effects)
    → Quiet fx
    → Quiet (
        removed_tree dir
        ∷ unmounted dir
        ∷ synced sync (ran c ∷ mounted false path dir ∷ made_dir dir ∷ fx))
unfolding still_mounted
copied-Quiet dir path c true fx h =
    unmounted-Quiet dir (synced true (ran c ∷ mounted false path dir ∷ made_dir dir ∷ fx))
      (λ d e. ground (arith, h d, e))
copied-Quiet dir path c false fx h =
    unmounted-Quiet dir (synced false (ran c ∷ mounted false path dir ∷ made_dir dir ∷ fx))
      (λ d e. ground (arith, h d, e))

pub copied-Tidy :
    (env : ToolEnv) (path source dir : Text) (sync : Bool) (fx : Effects)
    → Quiet fx
    → Tidy Any (
        finally
          (λ g. removed_tree dir ∷ unmounted dir ∷ g)
          (copy_into env source dir sync (mounted false path dir ∷ made_dir dir ∷ fx)))
unfolding still_mounted
copied-Tidy env path source dir sync fx h =
    choose (λ x. Tidy Any (finally (λ g. removed_tree dir ∷ unmounted dir ∷ g) x))
      (env.runs (copy_tree source dir)) _ _
      (copied-Quiet dir path (copy_tree source dir) sync fx h, tt)
      (copied-Quiet dir path (copy_tree source dir) false fx h)

pub fill_image-Tidy :
    (env : ToolEnv) (path source : Text) (sync : Bool) (fx : Effects)
    → Quiet fx
    → Tidy Any (fill_image env path source sync fx)
unfolding still_mounted fill_image
fill_image-Tidy env path source sync fx h =
    choose (Tidy Any) (not (env.mkdir_ok _)) _ _ h (
      choose (Tidy Any) (not (env.mount_ok path _)) _ _ h (copied-Tidy env path source _ sync fx h))

pub create_filesystem_image-Tidy :
    (env : ToolEnv) (b : Bool) (fs path : Text) (n : ℤ) (content : Text) (fx : Effects)
    → Quiet fx
    → Tidy Any (create_filesystem_image env b fs path n content fx)
unfolding create_filesystem_image
create_filesystem_image-Tidy env b fs path n content fx h =
    Tidy-then_ Any (allocate env b path n fx)
      (λ g.
        run_or env (mkfs fs path) mkfs_failed g (fill_image env path (source_dir env content) true))
      (allocate-Tidy env b path n fx h)
      (λ g q.
        Tidy-run_or Any env (mkfs fs path) mkfs_failed g
          (fill_image env path (source_dir env content) true) q
          (λ k r. fill_image-Tidy env path (source_dir env content) true k r))

pub finally-Tidy {ℓ} :
    {A : Type ℓ} (P : A → Type 0) (d : Text) (x : Effects × Result A)
    → Tidy P x
    → Tidy P (finally (λ g. removed_tree d ∷ g) x)
unfolding still_mounted
finally-Tidy P d (fx, good a) h = h
finally-Tidy P d (fx, bad e) h = h

pub extract-Quiet :
    (env : ToolEnv) (path : Text) (fx : Effects)
    → Quiet fx
    → Quiet (extract_oci_config env path fx).0
unfolding extract_oci_config still_mounted
extract-Quiet env path fx h =
    choose (λ (x : Effects × Option OciConfig). Quiet x.0) (not (env.mkdir_ok _)) _ _ h
      (choose (λ (x : Effects × Option OciConfig). Quiet x.0) (not (env.mount_ok path _)) _ _ h
        (unmounted-Quiet (path ++ codes ".extract")
          (mounted true path (path ++ codes ".extract") ∷ made_dir (path ++ codes ".extract") ∷ fx)
          (λ d e. ground (arith, h d, e))))

pub embed-Quiet :
    (env : ToolEnv) (dir : Text) (o : Option OciConfig) (fx : Effects)
    → Quiet fx
    → Quiet (embed_oci_config env dir o fx)
unfolding embed_oci_config still_mounted
embed-Quiet env dir none fx h = h
embed-Quiet env dir (some c) fx h =
    choose Quiet (env.mkdir_ok _) _ _ (choose Quiet (env.write_ok _) _ _ h h) h
