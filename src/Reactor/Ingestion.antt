-- ===== src/Reactor/Ingestion.antt =====
-- The rounds of the ingestion thread: what they leave in memory.
use telemetrix_db.Base.{
  ℕ, zero, suc, ◌+◌, ◌<◌, ◌^◌, ◌≡◌, ◌∙◌, ap, sym, refl, Bool, true, false, Option, none, some, List,
  [], ◌∷◌, map, set, length, All, Option-cases, inl, inr, lt→ltb, subst, ◌>>=◌, arith,
}
use telemetrix_db.Memory.{
  Live, keep, free, free_message, new_message, free-keep, free_message-new_message, cleanup-keep,
}
use telemetrix_db.Buffer.{VehicleData}
use telemetrix_db.Parser.{FeedMessage, push_entities, parse_and_queue}
use telemetrix_db.Fetcher.{
  Realloc, Transfer, Fetched, memcpy, after_realloc, write_memory_callback, perform,
  fetch_gtfs_data,
}
use telemetrix_db.Fetcher.Callback.{IsRealloc}
use telemetrix_db.Fetcher.Download.{body, Delivers, fetch-Delivers}
use telemetrix_db.Reactor.{usable, ingest, ingestion_thread}

-- A payload that is not null and has no bytes.
abbrev pub empty_payload : Option (List ℕ) → Option ℕ → ℕ
empty_payload none n = 0
empty_payload (some b) none = 0
empty_payload (some b) (some zero) = 1
empty_payload (some b) (some (suc n)) = 0

-- One block more for a payload with no bytes.
abbrev pub left_live : Option (List ℕ) → Option ℕ → Live → Live
left_live payload out_size live = record live {
  blocks = live.blocks + empty_payload payload out_size;
}

module _ {Float : Type 0} (zero_float : Float) {S : Type 0}
    (push : VehicleData Float → S → Option (Bool × S))
    (unpack : List ℕ → Option (FeedMessage Float)) (locals : ℕ → VehicleData Float) where
  -- How a round ends after this download: it never returns, since the message unpacks and a call of
  -- `buffer_push` never returns; or all is given back but for a payload with no bytes.
  abbrev pub RoundEnds : Fetched → Live → S → Option (S × Live) → Type 0
  RoundEnds f live s none =
      (b : List ℕ) × (msg : FeedMessage Float) × (usable f ≡ some b)
      × (unpack b ≡ some msg)
      × (push_entities zero_float push locals msg.entity 0 0 s ≡ none)
  RoundEnds f live s (some (s', live')) = live' ≡ left_live f.payload f.out_size live

  nothing_left : (live : Live) → live ≡ record live { blocks = live.blocks + 0 }
  nothing_left live = ap (λ n. record live { blocks = n }) (omega arith)

  -- A payload with bytes, in a block of its own.
  abbrev payload_of : List ℕ → ℕ → Live → Fetched
  payload_of b n live = record {
    payload = some b;
    out_size = some (suc n);
    live = keep (some b) live;
  }

  usable-payload_of : (b : List ℕ) (n : ℕ) (live : Live) → usable (payload_of b n live) ≡ some b
  usable-payload_of b n live = rw (lt→ltb 0 (suc n) (omega arith)) refl

  ends_with :
      (f : Fetched) (live : Live) (s : S) (o : Option (S × Live))
      → ingest zero_float push unpack locals f s ≡ o
      → RoundEnds f live s o
      → RoundEnds f live s (ingest zero_float push unpack locals f s)
  ends_with f live s o e w = subst (RoundEnds f live s) (sym e) w

  parsed-RoundEnds :
      (b : List ℕ) (n : ℕ) (live : Live) (s : S)
      → RoundEnds
          (payload_of b n live)
          live
          s
          (ingest zero_float push unpack locals (payload_of b n live) s)
  unfolding ingest parse_and_queue
  parsed-RoundEnds b n live s = elim (Option-cases (unpack b)) [
    | inl bad ↦
        ends_with (payload_of b n live) live s (some (s, free (some b) (keep (some b) live)))
          (rw (ingest, usable-payload_of b n live, bad, ◌>>=◌) refl)
          (free-keep (some b) live ∙ nothing_left live)
    | inr (msg, good) ↦
        elim (Option-cases (push_entities zero_float push locals msg.entity 0 0 s)) [
          | inl waits ↦
              ends_with (payload_of b n live) live s none
                (rw (ingest, usable-payload_of b n live, good, waits, ◌>>=◌) refl)
                (b, msg, usable-payload_of b n live, good, waits)
          | inr ((k, s'), ends) ↦
              ends_with (payload_of b n live) live s
                (some (s', free (some b) (free_message (new_message (keep (some b) live)))))
                (rw (ingest, usable-payload_of b n live, good, ends, ◌>>=◌) refl)
                (ap (free (some b)) (free_message-new_message (keep (some b) live))
                  ∙ free-keep (some b) live
                  ∙ nothing_left live)
        ]
  ]

  round-RoundEnds :
      (handle : Bool) (transfer : Transfer) (payload : Option (List ℕ)) (out_size : Option ℕ)
      (held live : Live) (s : S)
      → Delivers transfer live handle
          (record { payload = payload; out_size = out_size; live = held })
      → RoundEnds
          (record { payload = payload; out_size = out_size; live = held })
          live
          s
          (ingest zero_float push unpack locals
            (record { payload = payload; out_size = out_size; live = held })
            s)
  unfolding ingest
  round-RoundEnds handle transfer none none held live s d = d.1 ∙ nothing_left live
  round-RoundEnds handle transfer (some b) none held live s d = absurd (not_null d.0)
    where
      not_null : ◌≡◌ {A = Option (List ℕ)} (some b) none → ⊥
      not_null h = cc
  round-RoundEnds handle transfer none (some n) held live s d = d.4
  round-RoundEnds handle transfer (some b) (some zero) held live s d = d.4
  round-RoundEnds handle transfer (some b) (some (suc n)) held live s d =
      subst
        (λ h.
          RoundEnds (record { payload = some b; out_size = some (suc n); live = h }) live s
            (ingest zero_float push unpack locals
              (record { payload = some b; out_size = some (suc n); live = h }) s))
        (sym d.4) (parsed-RoundEnds b n live s)

  -- If realloc keeps its contract and no size wraps around: a round of the ingestion thread fails to
  -- return only if the message that it downloaded unpacks and a call of `buffer_push` never
  -- returns. A round that returns has cleaned up the curl handle, freed the unpacked message and the
  -- block of the payload, but for one case: a payload that is not null and has no bytes stays.
  pub ingest-RoundEnds :
      (realloc : Realloc) (law : IsRealloc realloc) (first : Option (List ℕ)) (handle : Bool)
      (transfer : Transfer) (live : Live) (s : S)
      → ((b : List ℕ) → first ≡ some b → length b ≡ 1)
      → length (body transfer.chunks) + 1 < 2 ^ 64
      → RoundEnds (fetch_gtfs_data realloc first handle transfer live) live s (
          ingest zero_float push unpack locals
            (fetch_gtfs_data realloc first handle transfer live)
            s)
  ingest-RoundEnds realloc law first handle transfer live s one_byte small =
      round-RoundEnds handle transfer _ _ _ live s
        (fetch-Delivers realloc law first transfer live one_byte small handle)

-- A download that ends well and whose body is empty: no chunk, or chunks of no bytes. The first
-- allocation gave this block.
pub record EmptyDownload : Type 0 where
  pub block : List ℕ
  pub transfer : Transfer

abbrev pub IsEmptyDownload : EmptyDownload → Type 0
IsEmptyDownload d = (body d.transfer.chunks ≡ []) × (d.transfer.ends_well ≡ true)

-- The download in a round, which starts from what is live before it.
abbrev pub download : Realloc → EmptyDownload → Live → Fetched
download realloc d = fetch_gtfs_data realloc (some d.block) true d.transfer

-- The callback on a chunk of no bytes, whatever `realloc` answers.
callback-empty :
    (realloc : Realloc) (b : List ℕ)
    → (m : List ℕ) × (write_memory_callback realloc [] 1 0 (record { memory = some b; size = 0 })
        ≡ (0, record { memory = some m; size = 0 }))
unfolding write_memory_callback after_realloc memcpy
callback-empty realloc b = elim (Option-cases (realloc (some b) 1)) [
  | inl short ↦ (b, rw short refl)
  | inr (ptr, found) ↦ (set ptr 0 0, rw found refl)
]

perform-empty :
    (realloc : Realloc) (cs : List (List ℕ)) (ends_well : Bool) (b : List ℕ)
    → body cs ≡ []
    → (m : List ℕ) × (perform realloc cs ends_well (record { memory = some b; size = 0 })
        ≡ (ends_well, record { memory = some m; size = 0 }))
unfolding perform
perform-empty realloc [] ends_well b e = (b, refl)
perform-empty realloc ([] ∷ cs) ends_well b e =
    let (m, took) = callback-empty realloc b in
    let (m', rest) = perform-empty realloc cs ends_well m e in (m', rw (took, rest) refl)
perform-empty realloc ((c ∷ chunk) ∷ cs) ends_well b e = absurd (not_nil e)
  where
    not_nil : {A : Type 0} {x : A} {xs : List A} → x ∷ xs ≡ [] → ⊥
    not_nil h = cc

module _ {Float : Type 0} (zero_float : Float) {S : Type 0}
    (push : VehicleData Float → S → Option (Bool × S))
    (unpack : List ℕ → Option (FeedMessage Float)) (locals : ℕ → VehicleData Float)
    (realloc : Realloc) where
  empty_round :
      (d : EmptyDownload) (live : Live) (s : S)
      → IsEmptyDownload d
      → ingest zero_float push unpack locals (download realloc d live) s
        ≡ some (s, record live { blocks = live.blocks + 1 })
  unfolding ingest fetch_gtfs_data
  empty_round d live s e =
      let (m, done) = perform-empty realloc d.transfer.chunks d.transfer.ends_well d.block e.0 in
      rw (done, e.1) (ap (λ l. some (s, l)) (cleanup-keep (some m) live))

  -- However often it happens: each round whose download succeeds with an empty body leaves the block
  -- of its payload in memory, whatever `realloc` does, and the queue as it was. Rounds like this and
  -- no other, from an open buffer, return, and leave as many blocks more as there were rounds.
  pub empty_bodies-leak :
      (downloads : List EmptyDownload) (live : Live) (s : S)
      → All IsEmptyDownload downloads
      → ingestion_thread zero_float push unpack locals
          (map (λ d. (false, download realloc d)) downloads)
          s
          live
        ≡ some (s, record live { blocks = live.blocks + length downloads })
  unfolding ingestion_thread
  empty_bodies-leak [] live s empty = ap (λ n. some (s, record live { blocks = n })) (omega arith)
  empty_bodies-leak (d ∷ downloads) live s (empty, others) =
      rw (empty_round d live s empty, ◌>>=◌)
        (empty_bodies-leak downloads (record live { blocks = live.blocks + 1 }) s others
          ∙ ap (λ n. some (s, record live { blocks = n })) (omega arith))
