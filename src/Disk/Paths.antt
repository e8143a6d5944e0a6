-- ===== src/Disk/Paths.antt =====
-- The temporary name `p~` of a path `p` is another path of the same directory.
use file_syncer.Prelude.{◌≡◌, refl, ◌≢◌, false, [], ◌∷◌, ◌++◌, arith, ap, length, length-append}
use file_syncer.Prelude.Text.{Text, text_eq, text_eq_iff}
use file_syncer.Disk.{Disk, cut_last_slash, has_parent}

-- A name of one component.
abbrev pub NoSlash : Text → Type 0
NoSlash [] = Unit
NoSlash (b ∷ t) = (b ≢ b'/') × NoSlash t

abbrev pub temp : Text → Text
temp p = p ++ b'~' ∷ []

pub cut_last_slash-temp : (p : Text) → cut_last_slash (temp p) ≡ cut_last_slash p
unfolding cut_last_slash
cut_last_slash-temp [] = refl
cut_last_slash-temp (c ∷ p) = ground (arith, cut_last_slash-temp p)

pub has_parent-temp : (d : Disk) (p : Text) → has_parent d (temp p) ≡ has_parent d p
unfolding has_parent
has_parent-temp d p = ground (arith, cut_last_slash-temp p)

pub temp-ne : (p : Text) → temp p ≢ p
temp-ne p e = omega (arith, ap (length {0}) e, length-append {0} p (b'~' ∷ []))

pub text_eq-temp : (p : Text) → text_eq (temp p) p ≡ false
text_eq-temp p = ground (arith, text_eq_iff (temp p) p, temp-ne p)

pub text_eq-temp_left : (p : Text) → text_eq p (temp p) ≡ false
text_eq-temp_left p = ground (arith, text_eq_iff p (temp p), temp-ne p)
