-- ===== src/Vm/Snapshot/Cache/Laws.antt =====
-- What the clean-up and the deletion of snapshots keep.
use mathlib.Core.Option.{none-ne-some, some-injective}
use firecracker_shim.Base.{
  choose, ◌≤◌, ◌≡◌, refl, sym, ◌∙◌, ap, subst, ◌≢◌, ◌⊎◌, inl, inr, Bool, true, false, Bool-cases,
  Option-cases, Option, none, some, String, List, [], ◌∷◌, length, ltb, if_then, if_else, ltb→lt,
  string_eq, =?-ne, lookup, delete, lookup-delete, All, arith,
}
use firecracker_shim.Base.Int.{pos, leb_ℤ, ◌<ℤ◌, ◌≤ℤ◌}
use firecracker_shim.Domain.{parent}
use firecracker_shim.Vm.Snapshot.Cache.{
  get_snapshot, delete_snapshot, delete_found, find_oldest, older, evict, cleanup,
}
use firecracker_shim.Vm.Snapshot.{Snapshot, SnapshotManager}
use firecracker_shim.Vm.World.{World, removed_dir}

-- The best so far stays, or something that is not younger takes its place.
abbrev Better : Option Snapshot → Snapshot → Type 0
Better none best = Unit
Better (some old) best = best.created_at ≤ old.created_at

abbrev Holds : (Snapshot → Type 0) → Option Snapshot → Type 0
Holds P none = Unit
Holds P (some s) = P s

older-Holds :
    (P : Snapshot → Type 0) (s : Snapshot) (o : Option Snapshot)
    → P s
    → Holds P o
    → Holds P (older s o)
older-Holds P s none g h = g
older-Holds P s (some b) g h =
    choose (Holds P) (ltb s.created_at b.created_at) (some s) (some b) g h

older-Better :
    (s : Snapshot) (o : Option Snapshot) (best : Snapshot)
    → Better (older s o) best
    → (best.created_at ≤ s.created_at) × Better o best
older-Better s none best h = (h, tt)
older-Better s (some b) best h = elim (Bool-cases (ltb s.created_at b.created_at)) [
  | inl e ↦
      let h' : best.created_at ≤ s.created_at = subst (λ o. Better o best) (if_then _ _ e) h in
      (h', omega (arith, ltb→lt _ _ e))
  | inr e ↦
      let h' : best.created_at ≤ b.created_at = subst (λ o. Better o best) (if_else _ _ e) h in
      (ground arith, h')
]

-- What holds of every snapshot that is not golden holds of the one found.
find_oldest-Holds :
    (P : Snapshot → Type 0) (m : List (String × Snapshot)) (o : Option Snapshot)
    → All (λ e. (e.1.is_golden ≡ true) ⊎ P e.1) m
    → Holds P o
    → Holds P (find_oldest m o)
unfolding find_oldest
find_oldest-Holds P [] o a h = h
find_oldest-Holds P ((k, s) ∷ m) o (inl g, a) h =
    subst (λ q. Holds P (find_oldest m q)) (sym (if_then _ _ g)) (find_oldest-Holds P m o a h)
find_oldest-Holds P ((k, s) ∷ m) o (inr p, a) h =
    find_oldest-Holds P m _ a (choose (Holds P) s.is_golden o (older s o) h (older-Holds P s o p h))

find_oldest-Oldest :
    (m : List (String × Snapshot)) (o : Option Snapshot) (best : Snapshot)
    → find_oldest m o ≡ some best
    → All (λ e. (e.1.is_golden ≡ true) ⊎ (best.created_at ≤ e.1.created_at)) m × Better o best
unfolding find_oldest
find_oldest-Oldest [] o best e = (tt, subst (λ q. Better q best) (sym e) (omega arith))
find_oldest-Oldest ((k, s) ∷ m) o best e = elim (Bool-cases s.is_golden) [
  | inl g ↦
      let (all, better) =
        find_oldest-Oldest m o best (subst (λ q. find_oldest m q ≡ some best) (if_then _ _ g) e) in
      ((inl g, all), better)
  | inr g ↦
      let (all, better) =
        find_oldest-Oldest m (older s o) best
          (subst (λ q. find_oldest m q ≡ some best) (if_else _ _ g) e) in
      let (least, rest) = older-Better s o best better in ((inr least, all), rest)
]

-- Each entry is what a look-up of its snapshot's name finds.
abbrev pub Indexed : List (String × Snapshot) → Type 0
Indexed m = All (λ e. lookup e.1.name m ≡ some e.1) m

-- What the loop of the clean-up finds in an indexed map.
abbrev pub Victim : List (String × Snapshot) → Snapshot → Type 0
Victim m best =
    (best.is_golden ≡ false)
    × (lookup best.name m ≡ some best)
    × All (λ e. (e.1.is_golden ≡ true) ⊎ (best.created_at ≤ e.1.created_at)) m

candidates :
    (whole m : List (String × Snapshot))
    → All (λ e. lookup e.1.name whole ≡ some e.1) m
    → All
        (λ e.
          (e.1.is_golden ≡ true) ⊎ ((e.1.is_golden ≡ false) × (lookup e.1.name whole ≡ some e.1)))
        m
candidates whole [] a = tt
candidates whole (e ∷ m) a = elim (Bool-cases e.1.is_golden) [
  | inl g ↦ (inl g, candidates whole m a.1)
  | inr g ↦ (inr (g, a.0), candidates whole m a.1)
]

find_oldest-Victim :
    (m : List (String × Snapshot)) (best : Snapshot)
    → Indexed m
    → find_oldest m none ≡ some best
    → Victim m best
find_oldest-Victim m best i e =
    let P : Snapshot → Type 0 = λ s. (s.is_golden ≡ false) × (lookup s.name m ≡ some s) in
    let (g, there) = subst (Holds P) e (find_oldest-Holds P m none (candidates m m i) tt) in
    (g, there, (find_oldest-Oldest m none best e).0)

-- Nothing is to be removed: the cache is within its limit, or holds golden snapshots only.
abbrev pub Spared : SnapshotManager → Type 0
Spared sm =
    (pos (length sm.snapshots) ≤ℤ sm.config.max_cached)
    ⊎ All (λ e. e.1.is_golden ≡ true) sm.snapshots

find_oldest-seen : (m : List (String × Snapshot)) (b : Snapshot) → find_oldest m (some b) ≢ none
unfolding find_oldest
find_oldest-seen [] b e = none-ne-some b (sym e)
find_oldest-seen ((k, s) ∷ m) b e = elim (Bool-cases s.is_golden) [
  | inl g ↦ find_oldest-seen m b (subst (λ q. find_oldest m q ≡ none) (if_then _ _ g) e)
  | inr g ↦
      choose (λ o. find_oldest m o ≢ none) (ltb s.created_at b.created_at) (some s) (some b)
        (find_oldest-seen m s) (find_oldest-seen m b)
        (subst (λ q. find_oldest m q ≡ none) (if_else _ _ g) e)
]

-- The loop finds nothing only where all snapshots are golden.
find_oldest-none :
    (m : List (String × Snapshot)) → find_oldest m none ≡ none → All (λ e. e.1.is_golden ≡ true) m
unfolding find_oldest
find_oldest-none [] e = tt
find_oldest-none ((k, s) ∷ m) e = elim (Bool-cases s.is_golden) [
  | inl g ↦ (g, find_oldest-none m (subst (λ q. find_oldest m q ≡ none) (if_then _ _ g) e))
  | inr g ↦ absurd (find_oldest-seen m s (subst (λ q. find_oldest m q ≡ none) (if_else _ _ g) e))
]

-- A clean-up changes nothing where the cache is within its limit or holds golden snapshots
-- only; otherwise, where each entry stands under its snapshot's name, it removes exactly one snapshot
-- with its directory: one that is not golden, and than which no other that is not golden is older.
pub cleanup_evicts :
    (sm : SnapshotManager) (w : World)
    → Indexed sm.snapshots
    → (Spared sm × (cleanup (sm, w) ≡ (sm, w)))
      ⊎ ((best : Snapshot) × (sm.config.max_cached <ℤ pos (length sm.snapshots))
          × Victim sm.snapshots best
          × (cleanup (sm, w) ≡ (
            record sm { snapshots = delete best.name sm.snapshots },
            record w { effects = removed_dir (parent best.memory_path) ∷ w.effects },
          )))
unfolding cleanup
cleanup_evicts sm w i = elim (Bool-cases (leb_ℤ (pos (length sm.snapshots)) sm.config.max_cached)) [
  | inl b ↦ inl (inl (ground arith), if_then _ _ b)
  | inr b ↦ elim (Option-cases (find_oldest sm.snapshots none)) [
    | inl e ↦
        inl (inr (find_oldest-none sm.snapshots e), if_else _ _ b ∙ ap (λ o. evict o (sm, w)) e)
    | inr (best, e) ↦ inr (
      best,
      ground arith,
      find_oldest-Victim sm.snapshots best i e,
      if_else _ _ b ∙ ap (λ o. evict o (sm, w)) e,
    )
  ]
]

clash :
    (m : List (String × Snapshot)) (j k : String) (a b : Snapshot)
    → lookup j m ≡ some a
    → lookup k m ≡ some b
    → a.is_golden ≡ false
    → b.is_golden ≡ true
    → j ≢ k
clash m j k a b la lb ga gb e =
    let same : a ≡ b = some-injective a b (sym la ∙ ap (λ n. lookup n m) e ∙ lb) in
    let flag : a.is_golden ≡ b.is_golden = ap (λ s. s.is_golden) same in
    ground (arith, flag, ga, gb)

lookup-delete_other :
    (m : List (String × Snapshot)) (j k : String) → j ≢ k → lookup k (delete j m) ≡ lookup k m
lookup-delete_other m j k h = lookup-delete j k m ∙ if_else _ _ (=?-ne j k h)

delete_found-golden :
    (removed : Bool) (name k : String) (o : Option Snapshot) (g : Snapshot) (sm : SnapshotManager)
    (w : World)
    → lookup name sm.snapshots ≡ o
    → lookup k sm.snapshots ≡ some g
    → g.is_golden ≡ true
    → lookup k (delete_found removed name o (sm, w)).0.0.snapshots ≡ some g
unfolding delete_found
delete_found-golden removed name k none g sm w e l gold = l
delete_found-golden removed name k (some s) g sm w e l gold = elim (Bool-cases s.is_golden) [
  | inl b ↦ ground (arith, b, l)
  | inr b ↦
      let other =
        lookup-delete_other sm.snapshots name k (clash sm.snapshots name k s g e l b gold) in
      ground (arith, b, l, other)
]

-- A golden snapshot is never lost: whatever name is deleted and whether or not the removal of files
-- succeeds, and after a clean-up of a cache in which each entry stands under its snapshot's name, a
-- golden snapshot is still found under its name.
pub golden_survives :
    (removed : Bool) (name k : String) (g : Snapshot) (sm : SnapshotManager) (w : World)
    → Indexed sm.snapshots
    → get_snapshot k sm ≡ some g
    → g.is_golden ≡ true
    → (get_snapshot k (delete_snapshot removed name (sm, w)).0.0 ≡ some g)
      × (get_snapshot k (cleanup (sm, w)).0 ≡ some g)
unfolding delete_snapshot get_snapshot
golden_survives removed name k g sm w i l gold = (
  delete_found-golden removed name k (lookup name sm.snapshots) g sm w refl l gold,
  elim (cleanup_evicts sm w i) [
    | inl (_, same) ↦ ap (λ st. lookup k st.0.snapshots) same ∙ l
    | inr (best, over, victim, e) ↦
        ap (λ st. lookup k st.0.snapshots) e
        ∙ lookup-delete_other sm.snapshots best.name k
            (clash sm.snapshots best.name k best g victim.1 l victim.0 gold)
        ∙ l
  ],
)
