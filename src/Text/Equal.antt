-- ===== src/Text/Equal.antt =====
-- The equality of texts.
use data_spinner.Base.{◌≡◌, refl, arith, true, [], ◌∷◌}
use data_spinner.Records.{Str}
use data_spinner.Text.{same_str}

pub same_str_refl : (s : Str) → same_str s s ≡ true
unfolding same_str
same_str_refl [] = refl
same_str_refl (a ∷ s) = ground (arith, same_str_refl s)

pub same_str_eq : (s t : Str) → same_str s t ≡ true → s ≡ t
unfolding same_str
same_str_eq [] [] h = refl
same_str_eq [] (b ∷ t) h = cc
same_str_eq (a ∷ s) [] h = cc
same_str_eq (a ∷ s) (b ∷ t) h = ground (arith, same_str_eq s t)
