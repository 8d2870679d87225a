-- ===== src/Text.antt =====
-- C strings and character arrays: the part of <string.h> that parser.c and main.cpp call.
pub mod Laws
mod Tests
use Prim.Native.Char.{code}
use telemetrix_db.Base.{
  ℕ, zero, suc, ◌-◌, Bool, true, false, ◌&&◌, String, List, [], ◌∷◌, ◌==◌, if◌then◌else◌, set,
}

-- The bytes of a text literal. `String` has its own `[]` and `∷`.
abbrev pub bytes : String → List ℕ
bytes String.[] = []
bytes (String.◌∷◌ c s) = code c ∷ bytes s

-- A C string is the list of its bytes before the NUL. `strncpy(dest, src, n)` writes `n` bytes into
-- the array `dest`: the string, cut or filled up with NULs.
unfoldable pub strncpy : List ℕ → List ℕ → ℕ → List ℕ
strncpy dest src zero = dest
strncpy [] src (suc n) = []
strncpy (d ∷ dest) [] (suc n) = 0 ∷ strncpy dest [] n
strncpy (d ∷ dest) (c ∷ src) (suc n) = c ∷ strncpy dest src n

-- `strncpy(a, src, sizeof(a) - 1); a[sizeof(a) - 1] = '\0';`
unfoldable pub copy_field : ℕ → List ℕ → List ℕ → List ℕ
unfolding strncpy
copy_field size dest src = set (strncpy dest src (size - 1)) (size - 1) 0

-- The C string that an array holds: its bytes before the first NUL.
unfoldable pub c_string : List ℕ → List ℕ
c_string [] = []
c_string (c ∷ cs) = let rest = c_string cs in if c == 0 then [] else c ∷ rest

-- `strncmp(a, b, n) == 0`: equal up to `n` bytes or the NUL of both.
unfoldable pub strncmp_eq : List ℕ → List ℕ → ℕ → Bool
strncmp_eq a b zero = true
strncmp_eq [] [] (suc n) = true
strncmp_eq [] (d ∷ b) (suc n) = false
strncmp_eq (c ∷ a) [] (suc n) = false
strncmp_eq (c ∷ a) (d ∷ b) (suc n) = (c == d) && strncmp_eq a b n
