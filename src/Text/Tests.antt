-- ===== src/Text/Tests.antt =====
-- Bounded copies on concrete strings.
use telemetrix_db.Base.{◌≡◌, refl, false, [], ◌∷◌}
use telemetrix_db.Text.{bytes, copy_field, c_string, strncmp_eq}

copy_short : copy_field 4 (9 ∷ 9 ∷ 9 ∷ 9 ∷ []) (bytes "ab") ≡ b'a' ∷ b'b' ∷ 0 ∷ 0 ∷ []
unfolding copy_field
copy_short = refl

copy_long : c_string (copy_field 4 (9 ∷ 9 ∷ 9 ∷ 9 ∷ []) (bytes "abcdef")) ≡ bytes "abc"
unfolding copy_field c_string
copy_long = refl

compare_cut : strncmp_eq (bytes "UNKNOWN") (bytes "UNKNOWNS") 16 ≡ false
unfolding strncmp_eq
compare_cut = refl
