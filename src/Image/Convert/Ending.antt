-- ===== src/Image/Convert/Ending.antt =====
-- No call of `Convert` of pkg/image/fsify.go is stuck: it returns, at the latest when the goroutine that
-- it waits for and then it itself have run.
use firecracker_shim.Base.{
  ℕ, ◌≤◌, ◌<◌, Bool, true, false, some, lookup, List, [], ◌∷◌, ◌≡◌, ◌⊎◌, inl, inr, refl, ◌≢◌, ◌∙◌,
  sym, ap, length, arith, ==_iff, subst,
}
use firecracker_shim.Base.Text.{Text, text_eq}
use firecracker_shim.Image.Tools.{Result, bad, cancelled}
use firecracker_shim.Image.Fsify.{ConvertedImage}
use firecracker_shim.Image.Convert.Exclusion.{three_turns, three_turns_close, working-owned}
use firecracker_shim.Image.Convert.Invariant.{awaits, Reach-Sound}
use firecracker_shim.Image.Convert.{
  Reach, Answers, Converter, Stage, Pc, System, turn, step, await_channel,
}

-- How many turns a goroutine still takes at most.
abbrev pub turns_left : Pc → ℕ
turns_left Pc.idle = 7
turns_left (Pc.check r) = 6
turns_left (Pc.enter r) = 5
turns_left (Pc.working r ch Stage.convert) = 3
turns_left (Pc.working r ch (Stage.store i)) = 2
turns_left (Pc.working r ch (Stage.unlock o)) = 1
turns_left (Pc.waiting r ch) = 2
turns_left (Pc.woken r) = 1
turns_left (Pc.answered o) = 0

-- The call has returned, or waits for a channel that is open.
abbrev pub Resting : Pc → Converter → Type 0
Resting (Pc.answered o) v = Unit {0}
Resting (Pc.waiting r ch) v = v.channels.closed ch ≡ false
Resting p v = turns_left p ≡ 0

turn_descends :
    (a : Answers) (p : Pc) (v : Converter)
    → (turns_left (turn a p v).0 < turns_left p) ⊎ Resting p v
unfolding turn
turn_descends a Pc.idle v = inl (omega arith)
turn_descends a (Pc.check r) v = inl (ground arith)
turn_descends a (Pc.enter r) v = inl (ground arith)
turn_descends a (Pc.working r ch Stage.convert) v = inl (ground arith)
turn_descends a (Pc.working r ch (Stage.store i)) v = inl (omega arith)
turn_descends a (Pc.working r ch (Stage.unlock o)) v = inl (omega arith)
turn_descends a (Pc.waiting r ch) v = ground arith
turn_descends a (Pc.woken r) v = inl (omega arith)
turn_descends a (Pc.answered o) v = inr tt

await-Resting :
    (r : Text) (ch : ℕ) (v : Converter) (closed done : Bool)
    → v.channels.closed ch ≡ false
    → closed ≡ false
    → Resting (await_channel r ch closed done) v
await-Resting r ch v false true h e = tt
await-Resting r ch v false false h e = h
await-Resting r ch v true true h e = tt
await-Resting r ch v true false h e = ground (arith, e)

Resting-turn :
    (a : Answers) (p : Pc) (v : Converter) → Resting p v → Resting (turn a p v).0 (turn a p v).1
unfolding turn
Resting-turn a (Pc.answered o) v h = tt
Resting-turn a (Pc.waiting r ch) v h = await-Resting r ch v (v.channels.closed ch) a.done h h
Resting-turn a Pc.idle v h = ground (arith, h)
Resting-turn a (Pc.check r) v h = ground (arith, h)
Resting-turn a (Pc.enter r) v h = ground (arith, h)
Resting-turn a (Pc.working r ch Stage.convert) v h = ground (arith, h)
Resting-turn a (Pc.working r ch (Stage.store i)) v h = ground (arith, h)
Resting-turn a (Pc.working r ch (Stage.unlock o)) v h = ground (arith, h)
Resting-turn a (Pc.woken r) v h = ground (arith, h)

Resting-zero : (p : Pc) (v : Converter) → turns_left p ≤ 0 → Resting p v
Resting-zero (Pc.answered o) v h = tt
Resting-zero (Pc.waiting r ch) v h = ground (arith, h)
Resting-zero Pc.idle v h = omega (arith, h)
Resting-zero (Pc.check r) v h = omega (arith, h)
Resting-zero (Pc.enter r) v h = omega (arith, h)
Resting-zero (Pc.working r ch Stage.convert) v h = omega (arith, h)
Resting-zero (Pc.working r ch (Stage.store i)) v h = omega (arith, h)
Resting-zero (Pc.working r ch (Stage.unlock o)) v h = omega (arith, h)
Resting-zero (Pc.woken r) v h = omega (arith, h)

turns_left_le : (p : Pc) → turns_left p ≤ 7
turns_left_le Pc.idle = omega arith
turns_left_le (Pc.check r) = omega arith
turns_left_le (Pc.enter r) = omega arith
turns_left_le (Pc.working r ch Stage.convert) = omega arith
turns_left_le (Pc.working r ch (Stage.store i)) = omega arith
turns_left_le (Pc.working r ch (Stage.unlock o)) = omega arith
turns_left_le (Pc.waiting r ch) = omega arith
turns_left_le (Pc.woken r) = omega arith
turns_left_le (Pc.answered o) = omega arith

-- A goroutine takes turns with the given answers.
unfoldable pub own_turns : List Answers → ℕ → System → System
own_turns [] i s = s
own_turns (a ∷ todo) i s = own_turns todo i (step a i s)

abbrev pub Rests : ℕ → System → Type 0
Rests i s = Resting (s.pcs i) s.shared

step-own : (a : Answers) (i : ℕ) (s : System) → (step a i s).pcs i ≡ (turn a (s.pcs i) s.shared).0
unfolding step
step-own a i s = ground (arith, ==_iff i i)

Rests-step : (a : Answers) (i : ℕ) (s : System) → Rests i s → Rests i (step a i s)
unfolding step
Rests-step a i s h =
    subst (λ p. Resting p (step a i s).shared) (sym (step-own a i s))
      (Resting-turn a (s.pcs i) s.shared h)

Rests-own_turns :
    (todo : List Answers) (i : ℕ) (s : System) → Rests i s → Rests i (own_turns todo i s)
unfolding own_turns
Rests-own_turns [] i s h = h
Rests-own_turns (a ∷ todo) i s h = Rests-own_turns todo i (step a i s) (Rests-step a i s h)

own_turns_end :
    (todo : List Answers) (i : ℕ) (s : System)
    → turns_left (s.pcs i) ≤ length todo
    → Rests i (own_turns todo i s)
unfolding own_turns
own_turns_end [] i s h = Resting-zero (s.pcs i) s.shared h
own_turns_end (a ∷ todo) i s h = elim (turn_descends a (s.pcs i) s.shared) [
  | inl less ↦
      own_turns_end todo i (step a i s) (omega (arith, h, less, ap turns_left (step-own a i s)))
  | inr rests ↦ Rests-own_turns todo i (step a i s) (Rests-step a i s rests)
]

Reach-own_turns : (todo : List Answers) (i : ℕ) {s : System} → Reach s → Reach (own_turns todo i s)
unfolding own_turns
Reach-own_turns [] i r = r
Reach-own_turns (a ∷ todo) i r = Reach-own_turns todo i (Reach.turned a i r)

-- The call of goroutine `i` has returned.
abbrev pub Returned : ℕ → System → Type 0
Returned i s = (o : Result ConvertedImage) × (s.pcs i ≡ Pc.answered o)

Resting-cases :
    (p : Pc) (v : Converter)
    → Resting p v
    → ((o : Result ConvertedImage) × (p ≡ Pc.answered o))
      ⊎ ((r : Text) × (ch : ℕ) × (p ≡ Pc.waiting r ch) × (v.channels.closed ch ≡ false))
Resting-cases (Pc.answered o) v h = inl (o, refl)
Resting-cases (Pc.waiting r ch) v h = inr (r, ch, refl, h)
Resting-cases Pc.idle v h = ground (arith, h)
Resting-cases (Pc.check r) v h = ground (arith, h)
Resting-cases (Pc.enter r) v h = ground (arith, h)
Resting-cases (Pc.working r ch Stage.convert) v h = ground (arith, h)
Resting-cases (Pc.working r ch (Stage.store i)) v h = ground (arith, h)
Resting-cases (Pc.working r ch (Stage.unlock o)) v h = ground (arith, h)
Resting-cases (Pc.woken r) v h = ground (arith, h)

await-closed :
    (r : Text) (ch : ℕ) (closed done : Bool)
    → closed ≡ true
    → (await_channel r ch closed done ≡ Pc.answered (bad cancelled))
      ⊎ (await_channel r ch closed done ≡ Pc.woken r)
await-closed r ch closed true e = inl refl
await-closed r ch true false e = inr refl
await-closed r ch false false e = ground (arith, e)

-- A goroutine that waits for a closed channel returns within two turns.
woken_returns :
    (a b : Answers) (s : System) (i : ℕ) (r : Text) (ch : ℕ)
    → s.pcs i ≡ Pc.waiting r ch
    → s.shared.channels.closed ch ≡ true
    → Returned i (step b i (step a i s))
unfolding turn
woken_returns a b s i r ch e closed =
    let first : (step a i s).pcs i ≡ await_channel r ch (s.shared.channels.closed ch) a.done =
      step-own a i s ∙ ap (λ p. (turn a p s.shared).0) e in
    let second = step-own b i (step a i s) in
    elim (await-closed r ch (s.shared.channels.closed ch) a.done closed) [
      | inl c ↦ (_, second ∙ ap (λ p. (turn b p (step a i s).shared).0) (first ∙ c))
      | inr w ↦ (_, second ∙ ap (λ p. (turn b p (step a i s).shared).0) (first ∙ w))
    ]

step-apart : (a : Answers) (i j : ℕ) (s : System) → i ≢ j → (step a j s).pcs i ≡ s.pcs i
unfolding step
step-apart a i j s ne = ground (arith, ne, ==_iff j i)

apart :
    (s : System) (i j : ℕ) (r q : Text) (ch k : ℕ) (st : Stage)
    → s.pcs i ≡ Pc.waiting r ch
    → s.pcs j ≡ Pc.working q k st
    → i ≢ j
apart s i j r q ch k st w o e = waiting_works (sym w ∙ ap s.pcs e ∙ o)
  where
    waiting_works : Pc.waiting r ch ≢ Pc.working q k st
    waiting_works x = ground (arith, x)

-- A goroutine that waits, in a reachable state, for an open channel: its owner can end that.
owner_frees :
    {s : System}
    → Reach s
    → (i : ℕ) (r : Text) (ch : ℕ) → s.pcs i ≡ Pc.waiting r ch
    → s.shared.channels.closed ch ≡ false
    → (j : ℕ) × (i ≢ j)
      × ((a b c d e : Answers) → Returned i (step e i (step d i (three_turns a b c j s))))
owner_frees {s} reach i r ch w open_channel =
    let v = Reach-Sound reach in
    let there : lookup r s.shared.channels.in_progress ≡ some ch =
      ground (arith, v.awaited i r ch (ap awaits w), open_channel) in
    let (j, o) = v.owner r ch there in
    let (st, working) = working-owned (s.pcs j) r ch o in
    let ne = apart s i j r r ch ch st w working in
    (
      j,
      ne,
      λ a b c d e.
          let kept =
            step-apart c i j (step b j (step a j s)) ne
            ∙ step-apart b i j (step a j s) ne
            ∙ step-apart a i j s ne in
          woken_returns d e (three_turns a b c j s) i r ch (kept ∙ w)
            (three_turns_close a b c s j r ch st working),
    )

-- From every reachable state, a goroutine that takes seven turns, or more, has returned from its call;
-- or else there is another one that need only take three turns, after which the call returns within two
-- more: whatever answers all these turns get.
pub convert_returns :
    {s : System}
    → Reach s
    → (i : ℕ) (todo : List Answers) → 7 ≤ length todo
    → let t = own_turns todo i s in
      Returned i t
      ⊎ ((j : ℕ) × (i ≢ j)
          × ((a b c d e : Answers) → Returned i (step e i (step d i (three_turns a b c j t)))))
convert_returns {s} reach i todo long =
    let t = own_turns todo i s in
    let rests = own_turns_end todo i s (omega (arith, long, turns_left_le (s.pcs i))) in
    elim (Resting-cases (t.pcs i) t.shared rests) [
      | inl answered ↦ inl answered
      | inr (r, ch, w, open_channel) ↦
          inr (owner_frees (Reach-own_turns todo i reach) i r ch w open_channel)
    ]
