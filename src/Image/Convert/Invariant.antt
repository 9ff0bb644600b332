-- ===== src/Image/Convert/Invariant.antt =====
-- Who owns which channel of the converter of Image.Convert, and who waits for it.
use firecracker_shim.Base.{
  ℕ, ◌≤◌, ◌<◌, true, false, Option, none, some, ==_iff, insert, delete, lookup, lookup-insert,
  lookup-delete, ◌=?◌, ◌≡◌, ◌⊎◌, inl, inr, refl, sym, fun_ext, arith, Bool-cases,
}
use firecracker_shim.Base.Text.{Text, text_eq, text_beq_iff}
use firecracker_shim.Image.Names.{normalize_ref}
use firecracker_shim.Image.Fsify.{Cache}
use firecracker_shim.Image.Convert.{
  Channels, Converter, Stage, await_channel, with_cache, join_or_start, Pc, Answers, System, moved,
  start_channel, finish_channel, turn, update, step, init, Reach,
}

-- The reference that a goroutine converts, and the channel it will close.
abbrev pub owned : Pc → Option (Text × ℕ)
owned (Pc.working r ch st) = some (r, ch)
owned _ = none

abbrev pub awaits : Pc → Option (Text × ℕ)
awaits (Pc.waiting r ch) = some (r, ch)
awaits _ = none

abbrev pub Roles : Type 0
Roles = ℕ → Option (Text × ℕ)

pub record Paired (o w : Roles) (c : Channels) : Type 0 where
  pub held : (i : ℕ) (r : Text) (ch : ℕ) → o i ≡ some (r, ch) → lookup r c.in_progress ≡ some ch
  pub made : (i : ℕ) (r : Text) (ch : ℕ) → o i ≡ some (r, ch) → ch < c.made
  pub live : (i : ℕ) (r : Text) (ch : ℕ) → o i ≡ some (r, ch) → c.closed ch ≡ false
  pub fresh : (k : ℕ) → c.made ≤ k → c.closed k ≡ false
  pub owner :
      (r : Text) (ch : ℕ) → lookup r c.in_progress ≡ some ch → (i : ℕ) × (o i ≡ some (r, ch))
  pub single : (i j : ℕ) (r q : Text) (ch : ℕ) → o i ≡ some (r, ch) → o j ≡ some (q, ch) → i ≡ j
  pub awaited :
      (i : ℕ) (r : Text) (ch : ℕ)
      → w i ≡ some (r, ch)
      → (c.closed ch ≡ true) ⊎ (lookup r c.in_progress ≡ some ch)

module _ (o w : Roles) (c : Channels) (p : Paired o w c) (i : ℕ) where
  -- A turn that leaves the channels alone.
  Paired-stay :
      (x y : Option (Text × ℕ))
      → x ≡ o i
      → ((r : Text) (ch : ℕ)
          → y ≡ some (r, ch)
          → (w i ≡ some (r, ch)) ⊎ (lookup r c.in_progress ≡ some ch))
      → Paired (update o i x) (update w i y) c
  Paired-stay x y ex ey = record {
    held = λ j r ch h. p.held j r ch (ground (arith, h, ex, ==_iff i j));
    made = λ j r ch h. p.made j r ch (ground (arith, h, ex, ==_iff i j));
    live = λ j r ch h. p.live j r ch (ground (arith, h, ex, ==_iff i j));
    fresh = p.fresh;
    owner = λ r ch h. let (j, e) = p.owner r ch h in (j, ground (arith, e, ex, ==_iff i j));
    single = λ j k r q ch h g.
        p.single j k r q ch (ground (arith, h, ex, ==_iff i j)) (ground (arith, g, ex, ==_iff i k));
    awaited = λ j r ch h. ground (arith, h, ey r ch, p.awaited j r ch, ==_iff i j);
  }

  -- A new channel, for a reference that nobody converts.
  Paired-start :
      (r : Text)
      → o i ≡ none
      → lookup r c.in_progress ≡ none
      → Paired (update o i (some (r, c.made))) (update w i none) (start_channel r c)
  unfolding insert
  Paired-start r idle absent = record {
    held = λ j q ch h. ground (
      arith,
      h,
      absent,
      lookup-insert r q c.made c.in_progress,
      text_beq_iff r q,
      p.held j q ch,
      ==_iff i j,
    );
    made = λ j q ch h. ground (arith, h, p.made j q ch, ==_iff i j);
    live = λ j q ch h. ground (arith, h, p.live j q ch, p.fresh c.made, ==_iff i j);
    fresh = λ k h. p.fresh k (omega (arith, h));
    owner = λ q ch h. elim (Bool-cases (r =? q)) [
      | inl e ↦ (
        i,
        ground (arith, h, e, lookup-insert r q c.made c.in_progress, text_beq_iff r q, ==_iff i i),
      )
      | inr e ↦
          let (j, f) =
            p.owner q ch (ground (arith, h, e, lookup-insert r q c.made c.in_progress)) in
          (j, ground (arith, f, idle, ==_iff i j))
    ];
    single = λ j k q s ch h g.
        ground
          (arith, h, g, p.single j k q s ch, p.made j q ch, p.made k s ch, ==_iff i j, ==_iff i k);
    awaited = λ j q ch h. ground (
      arith,
      h,
      absent,
      lookup-insert r q c.made c.in_progress,
      text_beq_iff r q,
      p.awaited j q ch,
      ==_iff i j,
    );
  }

  -- The channel is closed, and its reference is free.
  Paired-finish :
      (r : Text) (ch : ℕ)
      → o i ≡ some (r, ch)
      → Paired (update o i none) (update w i none) (finish_channel r ch c)
  unfolding delete
  Paired-finish r ch mine = record {
    held = λ j q k h. ground (
      arith,
      h,
      lookup-delete r q c.in_progress,
      text_beq_iff r q,
      p.held j q k,
      p.held i r ch mine,
      p.single i j r q ch mine,
      ==_iff i j,
    );
    made = λ j q k h. p.made j q k (ground (arith, h, ==_iff i j));
    live = λ j q k h.
        ground (arith, h, p.live j q k, p.single i j r q ch mine, ==_iff i j, ==_iff ch k);
    fresh = λ k h. ground (arith, h, p.fresh k, p.made i r ch mine, ==_iff ch k);
    owner = λ q k h.
        let (j, f) = p.owner q k (ground (arith, h, lookup-delete r q c.in_progress)) in
        (
          j,
          ground (arith, f, h, mine, lookup-delete r q c.in_progress, text_beq_iff r q, ==_iff i j),
        );
    single = λ j k q s n h g.
        p.single j k q s n (ground (arith, h, ==_iff i j)) (ground (arith, g, ==_iff i k));
    awaited = λ j q k h. ground (
      arith,
      h,
      lookup-delete r q c.in_progress,
      text_beq_iff r q,
      p.awaited j q k,
      p.held i r ch mine,
      ==_iff i j,
      ==_iff ch k,
    );
  }

abbrev pub Sound : System → Type 0
Sound s = Paired (λ i. owned (s.pcs i)) (λ i. awaits (s.pcs i)) s.shared.channels

update-after {ℓ} :
    {A : Type ℓ} (f : Pc → A) (pcs : ℕ → Pc) (i : ℕ) (p : Pc)
    → update (λ j. f (pcs j)) i (f p) ≡ (λ j. f (update pcs i p j))
update-after f pcs i p = fun_ext (λ j. ground arith)

module _ (s : System) (i : ℕ) (v : Sound s) where
  Sound-moved :
      (p : Pc) (c : Converter)
      → Paired
          (update (λ j. owned (s.pcs j)) i (owned p))
          (update (λ j. awaits (s.pcs j)) i (awaits p))
          c.channels
      → Sound (record { pcs = update s.pcs i p; shared = c })
  Sound-moved p c h = rw (sym (update-after owned s.pcs i p), sym (update-after awaits s.pcs i p)) h

  -- A turn after which the goroutine waits for nothing.
  Sound-quiet :
      (p : Pc) (m : Cache)
      → owned p ≡ owned (s.pcs i)
      → awaits p ≡ none
      → Sound (record { pcs = update s.pcs i p; shared = record s.shared { cache = m } })
  Sound-quiet p m eo ea =
      Sound-moved p (record s.shared { cache = m })
        (Paired-stay _ _ _ v i (owned p) (awaits p) eo (λ r ch h. ground (arith, h, ea)))

  -- The section under the lock in which a goroutine joins or starts a conversion.
  Sound-enter :
      (r : Text) (found : Option ℕ)
      → lookup r s.shared.channels.in_progress ≡ found
      → owned (s.pcs i) ≡ none
      → Sound (moved s i (with_cache s.shared.cache (join_or_start r found s.shared.channels)))
  unfolding insert
  Sound-enter r none absent e =
      Sound-moved (Pc.working r s.shared.channels.made Stage.convert)
        (record s.shared { channels = start_channel r s.shared.channels })
        (Paired-start _ _ _ v i r e absent)
  Sound-enter r (some ch) there e =
      Sound-moved (Pc.waiting r ch) s.shared
        (Paired-stay _ _ _ v i none (some (r, ch)) (sym e) (λ q k h. ground (arith, h, there)))

  -- Whatever a goroutine does next, the channels stay sound.
  Sound-turn : (a : Answers) (p : Pc) → s.pcs i ≡ p → Sound (moved s i (turn a p s.shared))
  unfolding turn
  Sound-turn a Pc.idle e =
      Sound-quiet (Pc.check (normalize_ref a.request)) s.shared.cache (ground (arith, e)) refl
  Sound-turn a (Pc.check r) e = Sound-quiet _ s.shared.cache (ground (arith, e)) (ground arith)
  Sound-turn a (Pc.enter r) e = Sound-enter r _ refl (ground (arith, e))
  Sound-turn a (Pc.working r ch Stage.convert) e =
      Sound-quiet _ s.shared.cache (ground (arith, e)) refl
  Sound-turn a (Pc.working r ch (Stage.store m)) e =
      Sound-quiet _ (insert r m s.shared.cache) (ground (arith, e)) refl
  Sound-turn a (Pc.working r ch (Stage.unlock o)) e =
      Sound-moved (Pc.answered o)
        (record s.shared { channels = finish_channel r ch s.shared.channels })
        (Paired-finish _ _ _ v i r ch (ground (arith, e)))
  Sound-turn a (Pc.waiting r ch) e =
      Sound-moved (await_channel r ch (s.shared.channels.closed ch) a.done) s.shared
        (Paired-stay _ _ _ v i _ _ (ground (arith, e)) (λ q k h. inl (ground (arith, h, e))))
  Sound-turn a (Pc.woken r) e = Sound-quiet _ s.shared.cache (ground (arith, e)) refl
  Sound-turn a (Pc.answered o) e = Sound-quiet _ s.shared.cache (ground (arith, e)) refl

Sound-init : (m : Cache) → Sound (init m)
unfolding lookup
Sound-init m = record {
  held = λ i r ch h. ground (arith, h);
  made = λ i r ch h. ground (arith, h);
  live = λ i r ch h. ground (arith, h);
  fresh = λ k h. refl;
  owner = λ r ch h. ground (arith, h);
  single = λ i j r q ch h g. ground (arith, h);
  awaited = λ i r ch h. ground (arith, h);
}

pub Reach-Sound : {s : System} → Reach s → Sound s
unfolding step
Reach-Sound (Reach.start m) = Sound-init m
Reach-Sound (Reach.turned a i r) = Sound-turn _ i (Reach-Sound r) a _ refl
Reach-Sound (Reach.deleted q r) = Reach-Sound r
