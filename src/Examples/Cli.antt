-- ===== src/Examples/Cli.antt =====
-- The clean-up of cmd/fcctl/main.go.
use firecracker_shim.Base.{
  true, false, ◌||◌, not, ◌≡◌, if◌then◌else◌, none, some, [], ◌∷◌, All, ◌=?◌,
}
use firecracker_shim.Base.Int.{pos, ltb_ℤ}
use firecracker_shim.Base.Text.{codes, text_eq}
use firecracker_shim.Cli.{Host, cmd_cleanup, is_dry_run, confirmed}
use firecracker_shim.Cli.Cleanup.{Killed, cmd_cleanup_spares}

-- Two sandboxes whose API does not answer: the process of the first has ended.
abbrev two_dirs : Host
two_dirs = record {
  entries = some ((codes "fc-1", true) ∷ (codes "fc-2", true) ∷ []);
  no_run_dir = false;
  has_socket = λ id. false;
  vm_state = λ id. none;
  pid_file = λ id. if id =? codes "fc-1" then some (pos 11) else some (pos 22);
  finds = λ n. true;
  alive = λ n. ltb_ℤ (pos 20) n;
  modified = λ id. some 5;
  kill_ok = λ n. true;
  sort = λ is. is;
}

cmd_cleanup_spares_example :
    All (Killed two_dirs) (cmd_cleanup two_dirs [] (codes "y") []).0
    × ((is_dry_run [] || not (confirmed (codes "y"))) ≡ true
        → (cmd_cleanup two_dirs [] (codes "y") []).0 ≡ [])
cmd_cleanup_spares_example = cmd_cleanup_spares two_dirs [] (codes "y") (λ id. tt) (λ P is h. h)
