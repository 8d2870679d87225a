-- ===== src/Fetcher.antt =====
-- src/ingestion/fetcher.c: the download of a payload into a growing block of memory.
pub mod Callback
pub mod Download
pub mod Plenty
mod Tests
use telemetrix_db.Base.{
  ℕ, zero, suc, ◌+◌, ◌-◌, ◌*◌, ◌%◌, ◌^◌, Bool, true, false, not, Option, none, some, List, [], ◌∷◌,
  ◌==◌, if◌then◌else◌, length, set,
}
use telemetrix_db.Memory.{Live, keep, free, new_handle, cleanup}

-- `struct MemoryStruct`. The block is its bytes, or null.
pub record MemoryStruct : Type 0 where
  pub memory : Option (List ℕ)
  pub size : ℕ

-- `size_t` sums and products.
abbrev pub size_t : ℕ → ℕ
size_t n = n % 2 ^ 64

-- `memcpy(&block[at], src, …)`. A write out of range changes nothing here; `Callback` rules it out.
unfoldable pub memcpy : List ℕ → ℕ → List ℕ → List ℕ
memcpy block at_ [] = block
memcpy [] at_ (c ∷ src) = []
memcpy (b ∷ block) zero (c ∷ src) = c ∷ memcpy block zero src
memcpy (b ∷ block) (suc i) (c ∷ src) = b ∷ memcpy block i (c ∷ src)

-- The C library's `realloc`: a block of the size asked for, or null.
abbrev pub Realloc : Type 0
Realloc = Option (List ℕ) → ℕ → Option (List ℕ)

-- The callback once `realloc` has answered.
unfoldable pub after_realloc : List ℕ → MemoryStruct → ℕ → Option (List ℕ) → ℕ × MemoryStruct
after_realloc contents mem realsize none = (0, mem)
after_realloc contents mem realsize (some ptr) = (
  realsize,
  record {
    memory = some (set (memcpy ptr mem.size contents) (size_t (mem.size + realsize)) 0);
    size = size_t (mem.size + realsize);
  },
)

-- `WriteMemoryCallback`, on `nmemb` elements of `size` bytes, which are `contents`: what it
-- returns, and the struct after it.
unfoldable pub write_memory_callback : Realloc → List ℕ → ℕ → ℕ → MemoryStruct → ℕ × MemoryStruct
write_memory_callback realloc contents size nmemb mem =
    let realsize = size_t (size * nmemb) in
    after_realloc contents mem realsize (realloc mem.memory (size_t (mem.size + realsize + 1)))

-- What the network does in one transfer: the chunks of the body, and whether it ends well.
pub record Transfer : Type 0 where
  pub chunks : List (List ℕ)
  pub ends_well : Bool

-- `curl_easy_perform` with this callback: each chunk is handed over in one call, as elements of one
-- byte; a call that returns another number than the chunk's length ends the transfer with an error.
-- The result is whether the code is CURLE_OK.
unfoldable pub perform : Realloc → List (List ℕ) → Bool → MemoryStruct → Bool × MemoryStruct
perform realloc [] ends_well mem = (ends_well, mem)
perform realloc (c ∷ cs) ends_well mem =
    let (taken, mem') = write_memory_callback realloc c 1 (length c) mem in
    let rest = perform realloc cs ends_well mem' in
    if taken == length c then rest else (false, mem')

-- What `fetch_gtfs_data` returns, what it stores through `out_size` (nothing when it fails), and
-- what is live after it.
pub record Fetched : Type 0 where
  pub payload : Option (List ℕ)
  pub out_size : Option ℕ
  pub live : Live

-- `free(chunk.memory); return NULL;`
abbrev pub give_up : MemoryStruct → Live → Fetched
give_up chunk live = record { payload = none; out_size = none; live = free chunk.memory live }

-- From `curl_easy_cleanup` on, `res` being CURLE_OK or not.
abbrev pub after_transfer : Bool × MemoryStruct → Live → Fetched
after_transfer (ok, chunk) live =
    if not ok
    then give_up chunk (cleanup live)
    else record { payload = chunk.memory; out_size = some chunk.size; live = cleanup live }

-- `fetch_gtfs_data`, with this live before it: `first` is what `malloc(1)` gives, `handle` whether
-- `curl_easy_init` does. The block of the struct is the only one: `realloc` puts the new one in the
-- place of the old. The handle is cleaned up after the transfer, however it ended.
unfoldable pub fetch_gtfs_data : Realloc → Option (List ℕ) → Bool → Transfer → Live → Fetched
fetch_gtfs_data realloc first handle transfer live =
    let chunk : MemoryStruct = record { memory = first; size = 0 } in
    if not handle
    then give_up chunk (keep chunk.memory live)
    else let r = perform realloc transfer.chunks transfer.ends_well chunk in
      after_transfer r (keep r.1.memory (new_handle live))
