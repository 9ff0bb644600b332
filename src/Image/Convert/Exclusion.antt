-- ===== src/Image/Convert/Exclusion.antt =====
-- Conversions of one image at the same time: `Convert` of pkg/image/fsify.go.
use firecracker_shim.Base.{
  ℕ, true, false, some, lookup, ◌≡◌, ◌≢◌, ◌⊎◌, inl, inr, ◌∙◌, ap, arith, ==_iff,
}
use firecracker_shim.Base.Text.{Text, text_eq}
use firecracker_shim.Image.Tools.{ImageError, Result, good, bad}
use firecracker_shim.Image.Fsify.{ConvertedImage}
use firecracker_shim.Image.Convert.{Stage, Pc, Answers, System, after_conversion, step, Reach}
use firecracker_shim.Image.Convert.Invariant.{owned, Reach-Sound}

-- After any turns of goroutines in `Convert`, and any calls of `Delete`, on a new converter, at
-- most one goroutine converts a reference: two that do are one and the same.
pub one_conversion :
    {s : System}
    → Reach s
    → (i j : ℕ) (r : Text) (a b : ℕ) (x y : Stage) → s.pcs i ≡ Pc.working r a x
    → s.pcs j ≡ Pc.working r b y
    → i ≡ j
one_conversion {s} reach i j r a b x y p q =
    let v = Reach-Sound reach in
    v.single i j r r a (ground (arith, p)) (ground (arith, q, v.held i r a, v.held j r b, p))

module _ (a : Answers) (s : System) (i : ℕ) where
  step-answered :
      (o : Result ConvertedImage) (ch : ℕ)
      → s.pcs i ≡ Pc.answered o
      → s.shared.channels.closed ch ≡ true
      → ((step a i s).pcs i ≡ Pc.answered o) × ((step a i s).shared.channels.closed ch ≡ true)
  unfolding step
  step-answered o ch e c = ground (arith, e, c, ==_iff i i)

  step-release :
      (r : Text) (ch : ℕ) (o : Result ConvertedImage)
      → s.pcs i ≡ Pc.working r ch (Stage.unlock o)
      → ((step a i s).pcs i ≡ Pc.answered o) × ((step a i s).shared.channels.closed ch ≡ true)
  unfolding step
  step-release r ch o e = ground (arith, e, ==_iff i i, ==_iff ch ch)

  step-store :
      (r : Text) (ch : ℕ) (m : ConvertedImage)
      → s.pcs i ≡ Pc.working r ch (Stage.store m)
      → (step a i s).pcs i ≡ Pc.working r ch (Stage.unlock (good m))
  unfolding step
  step-store r ch m e = ground (arith, e, ==_iff i i)

  step-convert :
      (r : Text) (ch : ℕ)
      → s.pcs i ≡ Pc.working r ch Stage.convert
      → (step a i s).pcs i ≡ Pc.working r ch (after_conversion (a.result r))
  unfolding step
  step-convert r ch e = ground (arith, e, ==_iff i i)

abbrev pub three_turns : Answers → Answers → Answers → ℕ → System → System
three_turns a b c i s = step c i (step b i (step a i s))

module _ (a b c : Answers) (s : System) (i : ℕ) (r : Text) (ch : ℕ) where
  after_release :
      (o : Result ConvertedImage)
      → s.pcs i ≡ Pc.working r ch (Stage.unlock o)
      → (three_turns a b c i s).shared.channels.closed ch ≡ true
  after_release o e =
      let (e1, c1) = step-release a s i r ch o e in
      let (e2, c2) = step-answered b (step a i s) i o ch e1 c1 in
      (step-answered c (step b i (step a i s)) i o ch e2 c2).1

  after_store :
      (m : ConvertedImage)
      → s.pcs i ≡ Pc.working r ch (Stage.store m)
      → (three_turns a b c i s).shared.channels.closed ch ≡ true
  after_store m e =
      let (e2, c2) = step-release b (step a i s) i r ch (good m) (step-store a s i r ch m e) in
      (step-answered c (step b i (step a i s)) i (good m) ch e2 c2).1

  after_convert :
      (x : Result ConvertedImage)
      → (step a i s).pcs i ≡ Pc.working r ch (after_conversion x)
      → (three_turns a b c i s).shared.channels.closed ch ≡ true
  after_convert (good m) e =
      (step-release c (step b i (step a i s)) i r ch (good m)
        (step-store b (step a i s) i r ch m e)).1
  after_convert (bad x) e =
      let (e2, c2) = step-release b (step a i s) i r ch (bad x) e in
      (step-answered c (step b i (step a i s)) i (bad x) ch e2 c2).1

  -- However far it has got, a goroutine that converts has closed its channel after three turns.
  pub three_turns_close :
      (st : Stage)
      → s.pcs i ≡ Pc.working r ch st
      → (three_turns a b c i s).shared.channels.closed ch ≡ true
  three_turns_close Stage.convert e = after_convert (a.result r) (step-convert a s i r ch e)
  three_turns_close (Stage.store m) e = after_store m e
  three_turns_close (Stage.unlock o) e = after_release o e

pub working-owned :
    (p : Pc) (r : Text) (ch : ℕ) → owned p ≡ some (r, ch) → (st : Stage) × (p ≡ Pc.working r ch st)
working-owned (Pc.working q k st) r ch e = (st, ground (arith, e))
working-owned Pc.idle r ch e = ground (arith, e)
working-owned (Pc.check q) r ch e = ground (arith, e)
working-owned (Pc.enter q) r ch e = ground (arith, e)
working-owned (Pc.waiting q k) r ch e = ground (arith, e)
working-owned (Pc.woken q) r ch e = ground (arith, e)
working-owned (Pc.answered o) r ch e = ground (arith, e)

-- After any turns of goroutines in `Convert`, and any calls of `Delete`, on a new converter: where
-- a goroutine waits for a channel, that channel is closed already, or there is a goroutine that
-- closes it within three turns of its own, whatever answers it gets.
pub no_lost_wakeup :
    {s : System}
    → Reach s
    → (i : ℕ) (r : Text) (ch : ℕ) → s.pcs i ≡ Pc.waiting r ch
    → (s.shared.channels.closed ch ≡ true)
      ⊎ ((j : ℕ) × ((a b c : Answers) → (three_turns a b c j s).shared.channels.closed ch ≡ true))
no_lost_wakeup {s} reach i r ch e =
    let v = Reach-Sound reach in
    elim (v.awaited i r ch (ground (arith, e))) [
      | inl closed ↦ inl closed
      | inr there ↦
          let (j, o) = v.owner r ch there in
          let (st, w) = working-owned (s.pcs j) r ch o in
          inr (j, λ a b c. three_turns_close a b c s j r ch st w)
    ]

step-others :
    (a : Answers) (s : System) (i j : ℕ) (r : Text) (ch : ℕ) (o : Result ConvertedImage)
    → i ≢ j
    → s.pcs j ≡ Pc.working r ch (Stage.unlock o)
    → ((step a j s).pcs i ≡ s.pcs i) × ((step a j s).shared.cache ≡ s.shared.cache)
unfolding step
step-others a s i j r ch o ne e = ground (arith, e, ne, ==_iff j i)

step-waiting :
    (a : Answers) (s : System) (i : ℕ) (r : Text) (ch : ℕ)
    → s.pcs i ≡ Pc.waiting r ch
    → s.shared.channels.closed ch ≡ true
    → a.done ≡ false
    → ((step a i s).pcs i ≡ Pc.woken r) × ((step a i s).shared.cache ≡ s.shared.cache)
unfolding step
step-waiting a s i r ch e closed active = ground (arith, e, closed, active, ==_iff i i)

step-woken :
    (a : Answers) (s : System) (i : ℕ) (r : Text) (m : ConvertedImage)
    → s.pcs i ≡ Pc.woken r
    → lookup r s.shared.cache ≡ some m
    → (step a i s).pcs i ≡ Pc.answered (good m)
unfolding step
step-woken a s i r m e entry = ground (arith, e, entry, ==_iff i i)

-- Where a conversion fails while the cache still has an entry for its reference, of a file that is
-- gone, say, a goroutine that waited for it, and whose context is not done, is given that entry and
-- no error.
pub waiter_after_failure :
    (a b c : Answers) (s : System) (i j : ℕ) (r : Text) (ch : ℕ) (e : ImageError)
    (m : ConvertedImage)
    → i ≢ j
    → s.pcs j ≡ Pc.working r ch (Stage.unlock (bad e))
    → s.pcs i ≡ Pc.waiting r ch
    → lookup r s.shared.cache ≡ some m
    → b.done ≡ false
    → ((step a j s).pcs j ≡ Pc.answered (bad e))
      × ((step c i (step b i (step a j s))).pcs i ≡ Pc.answered (good m))
unfolding step
waiter_after_failure a b c s i j r ch e m ne working waiting entry active =
    let (f, closed) = step-release a s j r ch (bad e) working in
    let (same, cache) = step-others a s i j r ch (bad e) ne working in
    let (woke, kept) = step-waiting b (step a j s) i r ch (same ∙ waiting) closed active in
    (f, step-woken c (step b i (step a j s)) i r m woke (ap (lookup r) (kept ∙ cache) ∙ entry))
