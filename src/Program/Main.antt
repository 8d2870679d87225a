-- ===== src/Program/Main.antt =====
-- src/main.cpp: `main` from its start. It loads the names, makes the buffer, and returns 1 if there
-- is none; else it starts `ingestion_thread` and enters its loop.
use telemetrix_db.Base.{
  ℕ, ◌≡◌, refl, Bool, Option, none, some, List, ◌⊎◌, inl, inr, ◌>>=◌, length, subst, arith,
}
use telemetrix_db.Buffer.{VehicleData, RingBuffer, Resources, buffer_init}
use telemetrix_db.Buffer.Valid.{Opened-ring, buffer_init-Opened}
use telemetrix_db.Parser.{FeedMessage}
use telemetrix_db.Parser.Convert.{HasSizes}
use telemetrix_db.Storage.{H3}
use telemetrix_db.Static.{Names, load_static_gtfs}
use telemetrix_db.Reactor.{Floats}
use telemetrix_db.Program.{Program, Runs}
use telemetrix_db.Program.Delivery.{Delivered, Runs-Delivered}

abbrev pub buffer_capacity : ℕ
buffer_capacity = 1024

abbrev pub boot_with :
    {Float : Type 0}
    → Names × Names
    → Option (RingBuffer (VehicleData Float))
    → ℕ ⊎ (Names × Names × RingBuffer (VehicleData Float))
boot_with names none = inl 1
boot_with (stop_names, route_names) (some rb) = inr (stop_names, route_names, rb)

-- What `main` has when it comes to `pthread_create`: the names and the buffer. Else it returns 1.
unfoldable pub main_boot :
    {Float : Type 0}
    → Option (List ℕ)
    → Option (List ℕ)
    → Bool
    → Option (List (VehicleData Float))
    → Resources
    → Option (ℕ ⊎ (Names × Names × RingBuffer (VehicleData Float)))
unfolding buffer_init
main_boot stops routes first block live = do
  names ← load_static_gtfs stops routes
  some (boot_with names (buffer_init first block buffer_capacity live).0)

module _ {Float : Type 0} where
  boot_with-none :
      (o : Option (Names × Names)) (b : Option (RingBuffer (VehicleData Float))) {code : ℕ}
      → (o >>= λ names. some (boot_with names b)) ≡ some (inl code)
      → (code ≡ 1) × (b ≡ none)
  boot_with-none none b e = absurd cc
  boot_with-none (some names) none e = (cc, refl)
  boot_with-none (some (stop_names, route_names)) (some rb) e = absurd cc

  boot_with-some :
      (o : Option (Names × Names)) (b : Option (RingBuffer (VehicleData Float)))
      {names : Names × Names} {rb : RingBuffer (VehicleData Float)}
      → (o >>= λ names'. some (boot_with names' b)) ≡ some (inr (names.0, names.1, rb))
      → (o ≡ some names) × (b ≡ some rb)
  boot_with-some none b e = absurd cc
  boot_with-some (some names) none e = absurd cc
  boot_with-some (some (stop_names, route_names)) (some rb) e = (cc, cc)

module _ {Float Double : Type 0} (floats : Floats Float Double) (h3 : H3 Double)
    (unpack : List ℕ → Option (FeedMessage Float)) (locals : ℕ → VehicleData Float)
    (stops routes : Option (List ℕ)) (first : Bool) (block : Option (List (VehicleData Float)))
    (live : Resources) where
  -- What becomes of `main`: it returns this code, or it is in its loop, in this state.
  pub data Main : ℕ ⊎ Program Float → Type 0 where
    returned :
        {code : ℕ} → main_boot stops routes first block live ≡ some (inl code) → Main (inl code)
    looping :
        {stop_names route_names : Names} {rb : RingBuffer (VehicleData Float)} {s : Program Float}
        → main_boot stops routes first block live ≡ some (inr (stop_names, route_names, rb))
        → Runs floats stop_names route_names h3 unpack locals rb s
        → Main (inr s)

  module _ (item : VehicleData Float) (sized : HasSizes item)
      (all_sized : (i : ℕ) → HasSizes (locals i))
      (full : (b : List (VehicleData Float)) → block ≡ some b → length b ≡ buffer_capacity) where
    -- The names that were loaded, and where all records are.
    pub record Looping (s : Program Float) : Type 0 where
      pub stop_names : Names
      pub route_names : Names
      pub loaded : load_static_gtfs stops routes ≡ some (stop_names, route_names)
      pub delivered :
          Delivered floats stop_names route_names h3 unpack locals item sized all_sized
            buffer_capacity s

    abbrev pub Expected : ℕ ⊎ Program Float → Type 0
    Expected (inl code) = (code ≡ 1) × ((buffer_init first block buffer_capacity live).0 ≡ none)
    Expected (inr s) = Looping s

    starts_valid :
        {stop_names route_names : Names} {rb : RingBuffer (VehicleData Float)} {s : Program Float}
        → (buffer_init first block buffer_capacity live).0 ≡ some rb
        → Runs floats stop_names route_names h3 unpack locals rb s
        → Delivered floats stop_names route_names h3 unpack locals item sized all_sized
            buffer_capacity s
    starts_valid {stop_names} {route_names} {s} made r =
        let fresh =
          Opened-ring first block live (buffer_init first block buffer_capacity live)
            (buffer_init-Opened first block buffer_capacity live full (omega arith) (omega arith))
            made in
        subst
          (λ n. Delivered floats stop_names route_names h3 unpack locals item sized all_sized n s)
          fresh.wide
          (Runs-Delivered floats stop_names route_names h3 unpack locals item sized all_sized
            fresh.valid fresh.empty fresh.still_open r)

    -- Whatever the two files hold and the allocations do, a block that the second one gives being of
    -- 1024 elements, and the locals of the parser of their declared sizes: if `main` returns, it
    -- returns 1 and `buffer_init` gave null. Else the names of the two files are loaded, and in every
    -- state that `main` and `ingestion_thread` reach, in any interleaving, no record is lost,
    -- repeated or reordered: the records of all messages decoded so far are, in order, those that
    -- `main` has taken, the one it is taking, those in the ring, at most 1024, the one being pushed,
    -- and those still to be parsed. The arena, the counter and the output are those of the records
    -- taken, less the unknown ones; and the ingestion thread never stops.
    pub Main-Expected : {r : ℕ ⊎ Program Float} → Main r → Expected r
    unfolding main_boot
    Main-Expected (returned e) =
        boot_with-none (load_static_gtfs stops routes)
          (buffer_init first block buffer_capacity live).0 e
    Main-Expected (looping {stop_names} {route_names} {rb} {s} e r) =
        let (loaded, made) =
          boot_with-some (load_static_gtfs stops routes)
            (buffer_init first block buffer_capacity live).0 {names = (stop_names, route_names)}
            e in
        record {
          stop_names = stop_names;
          route_names = route_names;
          loaded = loaded;
          delivered = starts_valid made r;
        }
