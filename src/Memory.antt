-- ===== src/Memory.antt =====
-- What the ingestion thread allocates and has to give back: the block of src/ingestion/fetcher.c and
-- src/main.cpp, the curl handle of fetcher.c, the unpacked message of src/ingestion/parser.c.
use telemetrix_db.Base.{ℕ, ◌+◌, ◌-◌, ◌≡◌, refl, Option, none, some, List, arith}

-- How many blocks of the heap, curl handles and unpacked messages are live.
pub record Live : Type 0 where
  pub blocks : ℕ
  pub handles : ℕ
  pub messages : ℕ

-- A pointer owns one block, or none if it is null.
abbrev pub blocks_of : Option (List ℕ) → ℕ
blocks_of none = 0
blocks_of (some b) = 1

-- An allocation that gave this pointer. `free` of null does nothing.
abbrev pub keep : Option (List ℕ) → Live → Live
keep p live = record live { blocks = live.blocks + blocks_of p }

abbrev pub free : Option (List ℕ) → Live → Live
free p live = record live { blocks = live.blocks - blocks_of p }

-- `curl_easy_init` that gave a handle, and `curl_easy_cleanup`.
abbrev pub new_handle : Live → Live
new_handle live = record live { handles = live.handles + 1 }

abbrev pub cleanup : Live → Live
cleanup live = record live { handles = live.handles - 1 }

-- `transit_realtime__feed_message__unpack` that gave a message, and `free_unpacked` on it.
abbrev pub new_message : Live → Live
new_message live = record live { messages = live.messages + 1 }

abbrev pub free_message : Live → Live
free_message live = record live { messages = live.messages - 1 }

add_sub : (n k : ℕ) → n + k - k ≡ n
add_sub n k = omega arith

pub free-keep : (p : Option (List ℕ)) (live : Live) → free p (keep p live) ≡ live
free-keep p live = rw (add_sub live.blocks (blocks_of p)) refl

pub cleanup-keep :
    (p : Option (List ℕ)) (live : Live) → cleanup (keep p (new_handle live)) ≡ keep p live
cleanup-keep p live = rw (add_sub live.handles 1) refl

pub free_message-new_message : (live : Live) → free_message (new_message live) ≡ live
free_message-new_message live = rw (add_sub live.messages 1) refl
