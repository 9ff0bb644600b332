-- ===== src/Image/Tidy/Reported.antt =====
-- What a conversion of pkg/image/fsify.go leaves behind, and what it reports.
use firecracker_shim.Base.{Option, none, some, ◌∷◌, ◌≡◌, refl, choose}
use firecracker_shim.Base.Int.{ℤ}
use firecracker_shim.Base.Text.{Text, codes, text_eq}
use firecracker_shim.Image.Tools.{
  join, Effects, made_dir, OciConfig, ToolEnv, Result, good, bad, then_, succeed, pull_failed,
  unpack_failed, tool_failed,
}
use firecracker_shim.Image.Names.{sanitize_name}
use firecracker_shim.Image.Filesystem.{disk_size, create_squashfs}
use firecracker_shim.Image.Oci.{extract_oci_config_from_dir}
use firecracker_shim.Image.Fsify.{FsifyConfig, ConvertedImage, output_path}
use firecracker_shim.Image.Conversion.{
  pull_image, unpack_image, cli_command, cli_result, convert_with_cli, squashfs_result,
  native_result, unpacked, convert_in, convert_native, run_conversion,
}
use firecracker_shim.Image.Tidy.{
  Tidy-run_or, Tidy-then_, create_filesystem_image-Tidy, embed-Quiet, extract-Quiet, finally-Tidy,
  still_mounted, Quiet, Tidy, Any,
}

-- The image is the one asked for, in the file that its name gives, of the size that the file has.
pub record Describes (c : FsifyConfig) (env : ToolEnv) (r : Text) (i : ConvertedImage)
    : Type 0 where
  pub names : i.reference ≡ r
  pub file : i.rootfs_path ≡ output_path c r
  pub measured : env.size_of (output_path c r) ≡ some i.size_bytes

module _ (c : FsifyConfig) (env : ToolEnv) (r : Text) where
  squashfs-Tidy :
      (n : ℤ) (o : Option OciConfig) (x : Effects × Result (Unit {0}))
      → env.size_of (output_path c r) ≡ some n
      → Tidy Any x
      → Tidy (Describes c env r) (squashfs_result c env r n o x)
  squashfs-Tidy n o (fx, good u) e h = (h.0, record { names = refl; file = refl; measured = e })
  squashfs-Tidy n o (fx, bad b) e h = (h, record { names = refl; file = refl; measured = e })

  native-Tidy :
      (dir : Text) (o : Option OciConfig) (size : Option ℤ) (fx : Effects)
      → env.size_of (output_path c r) ≡ size
      → Quiet fx
      → Tidy (Describes c env r) (native_result c env r dir o size fx)
  unfolding create_squashfs
  native-Tidy dir o none fx e h = h
  native-Tidy dir o (some n) fx e h =
      choose (Tidy (Describes c env r)) c.dual_output _ _
        (squashfs-Tidy n o _ e (Tidy-run_or Any env _ tool_failed fx succeed h (λ g q. (q, tt))))
        (h, record { names = refl; file = refl; measured = e })

  cli-Tidy :
      (size : Option ℤ) (fx : Effects)
      → env.size_of (output_path c r) ≡ size
      → Quiet fx
      → Tidy (Describes c env r) (cli_result c env r size fx)
  cli-Tidy none fx e h = h
  cli-Tidy (some n) fx e h =
      (extract-Quiet env (output_path c r) fx h, record { names = refl; file = refl; measured = e })

  unpacked-Tidy :
      (oci_dir dir : Text) (fx : Effects)
      → Quiet fx
      → Tidy (Describes c env r) (unpacked c env r oci_dir dir fx)
  unfolding disk_size still_mounted
  unpacked-Tidy oci_dir dir fx h =
      Tidy-then_ (Describes c env r) _ _
        (create_filesystem_image-Tidy env c.preallocate c.filesystem (output_path c r) _ dir _
          (embed-Quiet env dir (extract_oci_config_from_dir env oci_dir) fx h))
        (λ g q. native-Tidy dir _ _ g refl q)

  native_steps-Tidy :
      (oci_dir dir : Text) (fx : Effects)
      → Quiet fx
      → Tidy (Describes c env r) (
          then_
            (pull_image c env r oci_dir fx)
            (λ g. then_ (unpack_image c env oci_dir dir g) (unpacked c env r oci_dir dir)))
  unfolding pull_image unpack_image
  native_steps-Tidy oci_dir dir fx h =
      Tidy-then_ (Describes c env r) (pull_image c env r oci_dir fx)
        (λ g. then_ (unpack_image c env oci_dir dir g) (unpacked c env r oci_dir dir))
        (Tidy-run_or Any env _ pull_failed fx succeed h (λ g q. (q, tt)))
        (λ g q.
          Tidy-then_ (Describes c env r) (unpack_image c env oci_dir dir g)
            (unpacked c env r oci_dir dir)
            (Tidy-run_or Any env _ unpack_failed g succeed q (λ k t. (t, tt)))
            (unpacked-Tidy oci_dir dir))

  convert_in-Tidy :
      (temp : Text) (fx : Effects)
      → Quiet fx
      → Tidy (Describes c env r) (convert_in c env r temp fx)
  unfolding convert_in still_mounted
  convert_in-Tidy temp fx h =
      choose (Tidy (Describes c env r)) (env.mkdir_ok temp) _ _
        (native_steps-Tidy (join temp (codes "oci")) (join temp (codes "rootfs"))
          (made_dir temp ∷ fx) h)
        h

  convert_native-Tidy :
      (fx : Effects) → Quiet fx → Tidy (Describes c env r) (convert_native c env r fx)
  unfolding convert_native
  convert_native-Tidy fx h =
      finally-Tidy (Describes c env r) (join c.temp_dir (sanitize_name r))
        (convert_in c env r (join c.temp_dir (sanitize_name r)) fx)
        (convert_in-Tidy (join c.temp_dir (sanitize_name r)) fx h)

  convert_with_cli-Tidy :
      (fx : Effects) → Quiet fx → Tidy (Describes c env r) (convert_with_cli c env r fx)
  unfolding convert_with_cli
  convert_with_cli-Tidy fx h =
      Tidy-run_or (Describes c env r) env (cli_command c r) tool_failed fx
        (cli_result c env r (env.size_of (output_path c r))) h
        (λ g q. cli-Tidy (env.size_of (output_path c r)) g refl q)

  -- A conversion by either way, however it ends, calls `umount` for every directory on which it
  -- mounted an image; when it succeeds, the image it reports has the reference asked for, lies in
  -- the file named after it, and has the size of that file.
  pub run_conversion-Tidy :
      (fx : Effects) → Quiet fx → Tidy (Describes c env r) (run_conversion c env r fx)
  unfolding run_conversion
  run_conversion-Tidy fx h =
      choose (Tidy (Describes c env r)) c.use_fsify_cli (convert_with_cli c env r fx)
        (convert_native c env r fx) (convert_with_cli-Tidy fx h) (convert_native-Tidy fx h)
