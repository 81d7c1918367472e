-- ===== src/Prelude/Texts.antt =====
-- Texts that the program walks, as their bytes: equality and `strings.ToUpper` on ASCII.
use Prim.Native.Nat.{ℕ, ◌-◌}
use mathlib.Core.Path.{◌≡◌, refl}
use mathlib.Core.Logic.{◌↔◌}
use mathlib.Core.Bool.{Bool, true, false, ◌&&◌}
use mathlib.Core.Option.{Option, none, some}
use mathlib.Core.List.{List, [], ◌∷◌, map}
use native.Mathlib.Omega.{arith}
use bingwa.Prelude.Tests.{leb, ◌==◌, if◌then◌else◌}

abbrev pub Text : Type 0
Text = List ℕ

abbrev pub text_eq : Text → Text → Bool
text_eq [] [] = true
text_eq [] (_ ∷ _) = false
text_eq (_ ∷ _) [] = false
text_eq (a ∷ s) (b ∷ t) = a == b && text_eq s t

pub text_eq_iff : (s t : Text) → (text_eq s t ≡ true) ↔ (s ≡ t)
text_eq_iff [] [] = ground arith
text_eq_iff [] (_ ∷ _) = ground arith
text_eq_iff (_ ∷ _) [] = ground arith
text_eq_iff (a ∷ s) (b ∷ t) = ground (arith, text_eq_iff s t)

pub text_eq_refl : (s : Text) → text_eq s s ≡ true
text_eq_refl [] = refl
text_eq_refl (a ∷ s) = ground (arith, text_eq_refl s)

abbrev pub to_upper_byte : ℕ → ℕ
to_upper_byte c = if leb b'a' c && leb c b'z' then c - 32 else c

-- `strings.ToUpper`, on ASCII.
unfoldable pub to_upper : Text → Text
to_upper = map to_upper_byte

to_upper_byte_idem : (c : ℕ) → to_upper_byte (to_upper_byte c) ≡ to_upper_byte c
to_upper_byte_idem c = ground arith

pub to_upper_idem : (s : Text) → to_upper (to_upper s) ≡ to_upper s
unfolding to_upper
to_upper_idem [] = refl
to_upper_idem (c ∷ s) = cc (to_upper_byte_idem c, to_upper_idem s)

-- `sql.NullString{String: s, Valid: s != ""}`
abbrev pub null_string : Text → Option Text
null_string [] = none
null_string (c ∷ s) = some (c ∷ s)

-- `x = sql.NullString{String: *p, Valid: *p != ""}`, where `p` is given
abbrev pub set_text : Option Text → Option Text → Option Text
set_text none old = old
set_text (some t) old = null_string t
