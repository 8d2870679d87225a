-- ===== src/Storage/Threads/Return.antt =====
-- No call of `update` is caught: it can be brought to its return from wherever it stands.
use telemetrix_db.Base.{
  ℕ, ◌≡◌, ◌≢◌, refl, sym, ap, ◌∙◌, false, subst, update-same, update-other, ℕ_discrete,
}
use telemetrix_db.Storage.{HexBucket, H3, arena_idx}
use telemetrix_db.Storage.Arena.{Update}
use telemetrix_db.Storage.Threads.{Stage, Place, Scene, Access, Turn, access, clear, Turns, turn}
use telemetrix_db.Storage.Threads.Partial.{Covers}
use telemetrix_db.Storage.Threads.Held.{Held, at_rest, taken}
use telemetrix_db.Storage.Threads.Serial.{Turns-Serial}

module _ {Float Double : Type 0} (zero_float : Float) (h3 : H3 Double) where
  -- Steps from the one state to the other.
  pub data Leads : Scene Float Double → Scene Float Double → Type 0 where
    stay : {s : Scene Float Double} → Leads s s
    go : {s t t' : Scene Float Double} → Turn zero_float h3 s t → Leads t t' → Leads s t'

  Leads-append : {s t t' : Scene Float Double} → Leads s t → Leads t t' → Leads s t'
  Leads-append stay l = l
  Leads-append (go x k) l = go x (Leads-append k l)

  Leads-Turns :
      {s t : Scene Float Double} → Leads s t → Turns zero_float h3 s → Turns zero_float h3 t
  Leads-Turns stay r = r
  Leads-Turns (go x k) r = Leads-Turns k (turn r x)

  -- Thread `i` returns, and no other one moves.
  record Returns (i : ℕ) (s : Scene Float Double) : Type 0 where
    after : Scene Float Double
    leads : Leads s after
    out : after.pc i ≡ Place.outside
    others : (j : ℕ) → i ≢ j → after.pc j ≡ s.pc j

  module _ (i : ℕ) (u : Update Float Double) (hex_id : ℕ) where
    from_clearing :
        (s : Scene Float Double) → s.pc i ≡ Place.updating u hex_id Stage.clearing → Returns i s
    from_clearing s at = record {
      after = _;
      leads = go (clear i at) stay;
      out = update-same s.pc i Place.outside;
      others = λ j ne. update-other s.pc i Place.outside j ne;
    }

    -- One access more to go.
    before :
        {st st' : Stage}
        → ((s : Scene Float Double) → s.pc i ≡ Place.updating u hex_id st' → Returns i s)
        → (s : Scene Float Double) {b : HexBucket Float} → s.pc i ≡ Place.updating u hex_id st
        → Access zero_float hex_id u.sample (s.buckets (arena_idx hex_id)) st b st'
        → Returns i s
    before {st'} next s {b} at a =
        let p : Place Float Double = Place.updating u hex_id st' in
        let r = next _ (update-same s.pc i p) in
        record {
          after = r.after;
          leads = go (access i at a) r.leads;
          out = r.out;
          others = λ j ne. r.others j ne ∙ update-other s.pc i p j ne;
        }

    from_advancing :
        (h : ℕ) (s : Scene Float Double)
        → s.pc i ≡ Place.updating u hex_id (Stage.advancing h)
        → Returns i s
    from_advancing h s at = before from_clearing s at Access.advance

    from_stamping :
        (h : ℕ) (s : Scene Float Double)
        → s.pc i ≡ Place.updating u hex_id (Stage.stamping h)
        → Returns i s
    from_stamping h s at = before (from_advancing h) s at Access.store_timestamp

    from_speeding :
        (h : ℕ) (s : Scene Float Double)
        → s.pc i ≡ Place.updating u hex_id (Stage.speeding h)
        → Returns i s
    from_speeding h s at = before (from_stamping h) s at Access.store_speed

    from_loading :
        (s : Scene Float Double) → s.pc i ≡ Place.updating u hex_id Stage.loading → Returns i s
    from_loading s at = before (from_speeding _) s at Access.load

    from_tagging :
        (s : Scene Float Double) → s.pc i ≡ Place.updating u hex_id Stage.tagging → Returns i s
    from_tagging s at = before from_loading s at Access.tag

    from_resetting :
        (s : Scene Float Double) → s.pc i ≡ Place.updating u hex_id Stage.resetting → Returns i s
    from_resetting s at = before from_tagging s at Access.reset

    from_testing :
        (s : Scene Float Double)
        → s.pc i ≡ Place.updating u hex_id Stage.testing
        → (s.buckets (arena_idx hex_id)).lock ≡ false
        → Returns i s
    from_testing s at open_lock = before from_resetting s at (Access.acquire open_lock)

  -- A call that has its lock needs no other thread.
  holder-Returns :
      (i : ℕ) (p : Place Float Double) (k : ℕ) (s : Scene Float Double)
      → s.pc i ≡ p
      → Covers p k
      → Returns i s
  holder-Returns i Place.outside k s at c = absurd c
  holder-Returns i (Place.updating u hex_id Stage.testing) k s at c = absurd c
  holder-Returns i (Place.updating u hex_id Stage.resetting) k s at c =
      from_resetting i u hex_id s at
  holder-Returns i (Place.updating u hex_id Stage.tagging) k s at c = from_tagging i u hex_id s at
  holder-Returns i (Place.updating u hex_id Stage.loading) k s at c = from_loading i u hex_id s at
  holder-Returns i (Place.updating u hex_id (Stage.speeding h)) k s at c =
      from_speeding i u hex_id h s at
  holder-Returns i (Place.updating u hex_id (Stage.stamping h)) k s at c =
      from_stamping i u hex_id h s at
  holder-Returns i (Place.updating u hex_id (Stage.advancing h)) k s at c =
      from_advancing i u hex_id h s at
  holder-Returns i (Place.updating u hex_id Stage.clearing) k s at c = from_clearing i u hex_id s at

  -- A bucket that no thread has locked is unlocked.
  unlocked :
      {s : Scene Float Double} (k : ℕ)
      → Turns zero_float h3 s
      → ((j : ℕ) → Covers (s.pc j) k → ⊥)
      → (s.buckets k).lock ≡ false
  unlocked {s} k r nobody = let w = Turns-Serial zero_float h3 r in go_on (w.held k) (w.shown k).1
    where
      go_on :
          {b0 : HexBucket Float}
          → Held zero_float (s.buckets k) b0 s.pc k
          → b0.lock ≡ false
          → (s.buckets k).lock ≡ false
      go_on (at_rest e none_there) free = ap (λ b. b.lock) e ∙ free
      go_on (taken i c d only) free = absurd (nobody i c)

  -- The spinner's bucket, after the thread that had locked it has returned.
  next_free :
      {s : Scene Float Double} (k i0 : ℕ) (w : Returns i0 s)
      → ((j : ℕ) → Covers (s.pc j) k → j ≡ i0)
      → (j : ℕ) → Covers (w.after.pc j) k
      → ⊥
  next_free {s} k i0 w only j c = elim (ℕ_discrete i0 j) [
    | yes same ↦ subst (λ p. Covers p k) (ap (λ x. w.after.pc x) (sym same) ∙ w.out) c
    | no ne ↦ ne (sym (only j (subst (λ p. Covers p k) (w.others j ne) c)))
  ]

  spinner-Returns :
      {s : Scene Float Double} (i : ℕ) (u : Update Float Double) (hex_id : ℕ) {b0 : HexBucket Float}
      → Turns zero_float h3 s
      → s.pc i ≡ Place.updating u hex_id Stage.testing
      → Held zero_float (s.buckets (arena_idx hex_id)) b0 s.pc (arena_idx hex_id)
      → (t : Scene Float Double) × Leads s t × (t.pc i ≡ Place.outside)
  spinner-Returns {s} i u hex_id r at (at_rest e none_there) =
      let w = from_testing i u hex_id s at (unlocked (arena_idx hex_id) r none_there) in
      (w.after, w.leads, w.out)
  spinner-Returns {s} i u hex_id r at (taken i0 c d only) =
      let first = holder-Returns i0 (s.pc i0) (arena_idx hex_id) s refl c in
      let apart : i0 ≢ i =
        λ same. subst (λ p. Covers p (arena_idx hex_id)) (ap (λ x. s.pc x) same ∙ at) c in
      let open_lock =
        unlocked (arena_idx hex_id) (Leads-Turns first.leads r)
          (next_free (arena_idx hex_id) i0 first only) in
      let w = from_testing i u hex_id first.after (first.others i apart ∙ at) open_lock in
      (w.after, Leads-append first.leads w.leads, w.out)

  Place-Returns :
      {s : Scene Float Double} (i : ℕ) (p : Place Float Double)
      → Turns zero_float h3 s
      → s.pc i ≡ p
      → (t : Scene Float Double) × Leads s t × (t.pc i ≡ Place.outside)
  Place-Returns {s} i Place.outside r at = (s, stay, at)
  Place-Returns i (Place.updating u hex_id Stage.testing) r at =
      spinner-Returns i u hex_id r at ((Turns-Serial zero_float h3 r).held (arena_idx hex_id))
  Place-Returns {s} i (Place.updating u hex_id st) r at =
      let w = holder-Returns i (Place.updating u hex_id st) (arena_idx hex_id) s at refl in
      (w.after, w.leads, w.out)

  -- From every state that threads updating one new arena reach, and for every thread, there are steps
  -- that lead to a state in which this thread is out of `update`.
  pub Turns-Returns :
      {s : Scene Float Double}
      → Turns zero_float h3 s
      → (i : ℕ) → (t : Scene Float Double) × Leads s t × (t.pc i ≡ Place.outside)
  Turns-Returns {s} r i = Place-Returns i (s.pc i) r refl
