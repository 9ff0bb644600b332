-- ===== src/Examples/Image.antt =====
-- Images of pkg/image.
use firecracker_shim.Base.{
  ℕ, ◌≡◌, ◌≢◌, ◌⊎◌, refl, arith, Bool, true, false, not, some, none, [], ◌∷◌, ◌++◌, lookup, ◌=?◌,
  List,
}
use firecracker_shim.Base.Int.{pos}
use firecracker_shim.Base.Text.{Text, codes, contains, text_eq}
use firecracker_shim.Image.Tools.{ToolEnv, Command, good, bad, mkfs_failed, tool_failed, text, ran}
use firecracker_shim.Image.Names.{normalize_ref, output_name}
use firecracker_shim.Image.Collision.{output_name_collides}
use firecracker_shim.Image.Fsify.{ConvertedImage, default_fsify_config}
use firecracker_shim.Image.Conversion.{run_conversion}
use firecracker_shim.Image.Tidy.{still_mounted, Tidy}
use firecracker_shim.Image.Tidy.Reported.{Describes, run_conversion-Tidy}
use firecracker_shim.Image.Convert.{Answers, System, Stage, Pc, Reach, step, init}
use firecracker_shim.Image.Convert.Exclusion.{
  one_conversion, no_lost_wakeup, waiter_after_failure, three_turns,
}
use firecracker_shim.Image.Convert.Ending.{own_turns, Returned, convert_returns}
use firecracker_shim.Image.Rootfs.{
  ImageService, pull, pull_command, rootfs_file, pull_missing, cache_result,
  convert_to_block_device, default_service_config,
}
use firecracker_shim.Image.Rootfs.Broken.{pull_after_failure}

-- `q/a/b:1` and `q/a-b:1`.
output_name_collides_example :
    let with_slash = b'q' ∷ (codes "/a" ++ b'/' ∷ codes "b:1") in
    let with_dash = b'q' ∷ (codes "/a" ++ b'-' ∷ codes "b:1") in
    (normalize_ref with_slash ≡ with_slash)
    × (normalize_ref with_dash ≡ with_dash)
    × (with_slash ≢ with_dash)
    × (output_name with_slash ≡ output_name with_dash)
unfolding contains
output_name_collides_example =
    output_name_collides b'q' (codes "/a") (codes "b:1") refl refl refl refl

-- Every request is for `q/a:1`, no file is there, and conversions fail.
abbrev image : Text
image = codes "q/a:1"

abbrev failing : Answers
failing = record {
  request = image;
  there = λ p. false;
  done = false;
  result = λ r. bad tool_failed;
}

abbrev old_image : ConvertedImage
old_image = record {
  reference = image;
  digest = [];
  rootfs_path = codes "/srv/q-a-1.img";
  squashfs_path = [];
  size_bytes = pos 7;
  fs_type = codes "ext4";
  oci_config = none;
  converted_at = 3;
}

abbrev before : System
before = init ((image, old_image) ∷ [])

-- The first goroutine converts, and the second has come to wait for it.
abbrev busy : System
unfolding step
busy =
    step failing 1
      (step failing 1 (step failing 1 (step failing 0 (step failing 0 (step failing 0 before)))))

busy-Reach : Reach busy
unfolding busy
busy-Reach = Reach.turned failing 1 (
    Reach.turned failing 1 (
      Reach.turned failing 1 (
        Reach.turned failing 0 (
          Reach.turned failing 0
            (Reach.turned failing 0 (Reach.start ((image, old_image) ∷ [])))))))

one_conversion_example : ◌≡◌ {A = ℕ} 0 0
unfolding busy
one_conversion_example =
    one_conversion busy-Reach 0 0 image 0 0 Stage.convert Stage.convert refl refl

no_lost_wakeup_example :
    (busy.shared.channels.closed 0 ≡ true)
    ⊎ ((j : ℕ) × ((a b c : Answers) → (three_turns a b c j busy).shared.channels.closed 0 ≡ true))
unfolding busy
no_lost_wakeup_example = no_lost_wakeup busy-Reach 1 image 0 refl

-- The conversion has failed, and its channel is closed next.
abbrev failed_conversion : System
unfolding busy
failed_conversion = step failing 0 busy

waiter_after_failure_example :
    ((step failing 0 failed_conversion).pcs 0 ≡ Pc.answered (bad tool_failed))
    × ((step failing 1 (step failing 1 (step failing 0 failed_conversion))).pcs 1
        ≡ Pc.answered (good old_image))
unfolding failed_conversion lookup
waiter_after_failure_example =
    waiter_after_failure failing failing failing failed_conversion 1 0 image 0 tool_failed old_image
      (ground arith) refl refl refl refl

abbrev service : ImageService
service = record { config = default_service_config; cache = [] }

abbrev is_mkfs : Command → Bool
is_mkfs [] = false
is_mkfs (text p ∷ c) = p =? codes "mkfs.ext4"
is_mkfs (_ ∷ c) = false

-- `mkfs.ext4` fails, and all else succeeds.
abbrev no_mkfs : ToolEnv
no_mkfs = record {
  runs = λ c. not (is_mkfs c);
  mkdir_ok = λ p. true;
  mount_ok = λ p d. true;
  create_ok = λ p. true;
  truncate_ok = λ p. true;
  exists = λ p. false;
  absent = λ p. true;
  size_of = λ p. none;
  disk_usage = pos 5;
  readable_size = pos 5000000;
  walked_size = some (pos 5000000);
  with_headroom = λ n. n;
  write_ok = λ p. true;
  index_of = λ p. none;
  manifest_of = λ p. none;
  config_of = λ p. none;
  pid = 9;
  now = 4;
}

abbrev afterwards : ToolEnv
afterwards = record no_mkfs { exists = λ p. true }

pull_after_failure_example : (pull (pull service no_mkfs image []).0 afterwards image []).1 ≡ (
  ran (pull_command default_service_config image) ∷ [],
  good (rootfs_file default_service_config image),
)
unfolding pull pull_missing cache_result convert_to_block_device
pull_after_failure_example =
    pull_after_failure service no_mkfs afterwards image [] [] mkfs_failed refl refl refl

-- Every call succeeds.
abbrev able : ToolEnv
able = record no_mkfs { runs = λ c. true; size_of = λ p. some (pos 7) }

run_conversion-Tidy_example :
    Tidy
      (Describes default_fsify_config able image)
      (run_conversion default_fsify_config able image [])
unfolding still_mounted
run_conversion-Tidy_example = run_conversion-Tidy default_fsify_config able image [] (λ d. refl)

abbrev seven : List Answers
seven = failing ∷ failing ∷ failing ∷ failing ∷ failing ∷ failing ∷ failing ∷ []

convert_returns_example :
    let t = own_turns seven 1 busy in
    Returned 1 t
    ⊎ ((j : ℕ) × (1 ≢ j)
        × ((a b c d e : Answers) → Returned 1 (step e 1 (step d 1 (three_turns a b c j t)))))
unfolding busy
convert_returns_example = convert_returns busy-Reach 1 seven (omega arith)
