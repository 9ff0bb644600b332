-- ===== src/Image/Convert.antt =====
-- `Convert` and `Delete` of pkg/image/fsify.go as goroutines that share one converter. A turn of a
-- goroutine is what it does between two points where others may run: a section under the lock, a
-- wait for a channel, or the conversion itself. Who runs next, and what the outside answers, is free.
mod Invariant
pub mod Exclusion
pub mod Ending
use firecracker_shim.Base.{
  ℕ, ◌+◌, Bool, true, false, Option, none, some, List, [], ◌∷◌, if◌then◌else◌, ◌==◌, insert, delete,
  lookup, Eq,
}
use firecracker_shim.Base.Text.{Text, text_eq}
use firecracker_shim.Image.Names.{normalize_ref}
use firecracker_shim.Image.Tools.{ImageError, Result, good, bad, conversion_failed, cancelled}
use firecracker_shim.Image.Fsify.{ConvertedImage, Cache}

-- Channels are numbers; each is made by one goroutine, and closed at most once.
pub record Channels : Type 0 where
  pub in_progress : List (Text × ℕ)
  pub closed : ℕ → Bool
  pub made : ℕ

pub record Converter : Type 0 where
  pub cache : Cache
  pub channels : Channels

-- What the goroutine that converts a reference does next.
pub data Stage : Type 0 where
  convert : Stage
  store : ConvertedImage → Stage
  unlock : Result ConvertedImage → Stage

pub data Pc : Type 0 where
  idle : Pc
  check : Text → Pc
  enter : Text → Pc
  working : Text → ℕ → Stage → Pc
  waiting : Text → ℕ → Pc
  woken : Text → Pc
  answered : Result ConvertedImage → Pc

-- The answers that one turn gets: a request, whether a file is there, whether a wait
-- ends because the context is done (where the channel is closed too, `select` may take either), and
-- what a conversion gives.
pub record Answers : Type 0 where
  pub request : Text
  pub there : Text → Bool
  pub done : Bool
  pub result : Text → Result ConvertedImage

abbrev pub cached_or_enter : Answers → Text → Option ConvertedImage → Pc
cached_or_enter a r none = enter r
cached_or_enter a r (some i) = if a.there i.rootfs_path then answered (good i) else enter r

abbrev pub finish_channel : Text → ℕ → Channels → Channels
unfolding delete
finish_channel r ch c = record {
  in_progress = delete r c.in_progress;
  closed = λ k. if ch == k then true else c.closed k;
  made = c.made;
}

abbrev pub start_channel : Text → Channels → Channels
unfolding insert
start_channel r c = record {
  in_progress = insert r c.made c.in_progress;
  closed = c.closed;
  made = c.made + 1;
}

abbrev pub join_or_start : Text → Option ℕ → Channels → Pc × Channels
join_or_start r (some ch) c = (waiting r ch, c)
join_or_start r none c = (working r c.made convert, start_channel r c)

abbrev pub with_cache : Cache → Pc × Channels → Pc × Converter
with_cache m (p, c) = (p, record { cache = m; channels = c })

abbrev pub after_conversion : Result ConvertedImage → Stage
after_conversion (good i) = store i
after_conversion (bad e) = unlock (bad e)

abbrev cached_result : Option ConvertedImage → Result ConvertedImage
cached_result none = bad conversion_failed
cached_result (some i) = good i

-- A goroutine that waits for an open channel stays where it is, unless its context is done.
abbrev pub await_channel : Text → ℕ → Bool → Bool → Pc
await_channel r ch closed done =
    if done then answered (bad cancelled) else if closed then woken r else waiting r ch

unfoldable pub turn : Answers → Pc → Converter → Pc × Converter
unfolding lookup insert normalize_ref
turn a idle v = (check (normalize_ref a.request), v)
turn a (check r) v = (cached_or_enter a r (lookup r v.cache), v)
turn a (enter r) v =
    with_cache v.cache (join_or_start r (lookup r v.channels.in_progress) v.channels)
turn a (working r ch convert) v = (working r ch (after_conversion (a.result r)), v)
turn a (working r ch (store i)) v =
    (working r ch (unlock (good i)), record v { cache = insert r i v.cache })
turn a (working r ch (unlock o)) v =
    (answered o, record v { channels = finish_channel r ch v.channels })
turn a (waiting r ch) v = (await_channel r ch (v.channels.closed ch) a.done, v)
turn a (woken r) v = (answered (cached_result (lookup r v.cache)), v)
turn a (answered o) v = (answered o, v)

pub record System : Type 0 where
  pub pcs : ℕ → Pc
  pub shared : Converter

abbrev pub update {ℓ} : {A : Type ℓ} → (ℕ → A) → ℕ → A → ℕ → A
update f i p j = if i == j then p else f j

abbrev pub moved : System → ℕ → Pc × Converter → System
moved s i (p, v) = record { pcs = update s.pcs i p; shared = v }

-- Goroutine `i` takes a turn.
unfoldable pub step : Answers → ℕ → System → System
unfolding turn
step a i s = moved s i (turn a (s.pcs i) s.shared)

-- `Delete` holds the lock for all that it does.
abbrev pub delete_step : Text → System → System
unfolding delete normalize_ref
delete_step r s = record s {
  shared = record s.shared { cache = delete (normalize_ref r) s.shared.cache };
}

-- A new converter: the cache is what `loadCache` read.
abbrev pub init : Cache → System
init m = record {
  pcs = λ _. idle;
  shared = record {
    cache = m;
    channels = record { in_progress = []; closed = λ _. false; made = 0 };
  };
}

pub data Reach : System → Type 0 where
  start : (m : Cache) → Reach (init m)
  turned : {s : System} (a : Answers) (i : ℕ) → Reach s → Reach (step a i s)
  deleted : {s : System} (r : Text) → Reach s → Reach (delete_step r s)
