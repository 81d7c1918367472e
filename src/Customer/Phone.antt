-- ===== src/Customer/Phone.antt =====
-- `validatePhoneNumber` of internal/service/customer/customer.go.
use bingwa.Prelude.{
  ℕ, ◌≤◌, ◌≡◌, refl, ◌↔◌, inl, inr, Bool, true, false, ◌&&◌, ◌||◌, Option, none, some, [], ◌∷◌,
  Text, ◌==◌, ltb, leb, length, delete_where, All, String, arith, if◌then◌else◌, Bool-cases,
}

-- `strings.ReplaceAll(phone, c, "")` for a text of one byte
abbrev pub remove_byte : ℕ → Text → Text
remove_byte c = delete_where (λ b. b == c)

unfoldable pub cleaned : Text → Text
cleaned phone = remove_byte b')' (remove_byte b'(' (remove_byte b'-' (remove_byte b' ' phone)))

abbrev pub is_digit : ℕ → Bool
is_digit b = leb b'0' b && leb b b'9'

unfoldable pub only_digits : Text → Bool
only_digits [] = true
only_digits (b ∷ bs) = is_digit b && only_digits bs

-- The loop over the characters, which lets a `+` pass in the first place.
unfoldable pub digits_after_plus : Text → Bool
unfolding only_digits
digits_after_plus [] = true
digits_after_plus (b ∷ bs) = (b == b'+' || is_digit b) && only_digits bs

-- The message of the error, if the number is refused.
unfoldable pub phone_refusal : Text → Option String
unfolding cleaned digits_after_plus
phone_refusal phone =
    if ltb (length (cleaned phone)) 9 || ltb 13 (length (cleaned phone))
    then some "invalid phone number length"
    else if digits_after_plus (cleaned phone)
    then none
    else some "phone number must contain only digits"

abbrev pub AllDigits : Text → Type 0
AllDigits = All λ b. (b'0' ≤ b) × (b ≤ b'9')

-- Nine to thirteen characters, a plus sign at most in front of digits only.
pub record IsPhone (t : Text) : Type 0 where
  pub plus : Bool
  pub digits : Text
  pub is_text : t ≡ (if plus then b'+' ∷ digits else digits)
  pub all_digits : AllDigits digits
  pub not_short : 9 ≤ length t
  pub not_long : length t ≤ 13

only_digits→AllDigits : (t : Text) → only_digits t ≡ true → AllDigits t
unfolding only_digits
only_digits→AllDigits [] h = tt
only_digits→AllDigits (b ∷ bs) h =
    ((ground arith, ground arith), only_digits→AllDigits bs (ground arith))

AllDigits→only_digits : (t : Text) → AllDigits t → only_digits t ≡ true
unfolding only_digits
AllDigits→only_digits [] h = refl
AllDigits→only_digits (b ∷ bs) h = ground (arith, AllDigits→only_digits bs h.1)

plus_or_digits :
    (t : Text)
    → digits_after_plus t ≡ true
    → (plus : Bool) × (digits : Text) × (t ≡ (if plus then b'+' ∷ digits else digits))
      × AllDigits digits
unfolding digits_after_plus only_digits
plus_or_digits [] h = (false, [], refl, tt)
plus_or_digits (b ∷ bs) h = elim (Bool-cases (b == b'+')) [
  | inl sign ↦ (true, bs, ground arith, only_digits→AllDigits bs (ground arith))
  | inr digit ↦
      (false, b ∷ bs, refl, ((ground arith, ground arith), only_digits→AllDigits bs (ground arith)))
]

AllDigits→digits_after_plus :
    (plus : Bool) (digits : Text)
    → AllDigits digits
    → digits_after_plus (if plus then b'+' ∷ digits else digits) ≡ true
unfolding digits_after_plus
AllDigits→digits_after_plus true ds h = ground (arith, AllDigits→only_digits ds h)
AllDigits→digits_after_plus false [] h = refl
AllDigits→digits_after_plus false (b ∷ bs) h = ground (arith, AllDigits→only_digits bs h.1)

-- A phone number is accepted exactly if, without its spaces, dashes and parentheses, it has nine to
-- thirteen characters, all of them digits but for a plus sign that may stand in front.
pub phone_refusal_iff : (phone : Text) → (phone_refusal phone ≡ none) ↔ IsPhone (cleaned phone)
unfolding phone_refusal
phone_refusal_iff phone = (
  λ h.
      let (plus, digits, same, all) = plus_or_digits (cleaned phone) (ground arith) in
      record {
        plus = plus;
        digits = digits;
        is_text = same;
        all_digits = all;
        not_short = ground arith;
        not_long = ground arith;
      },
  λ p.
      let fine : digits_after_plus (cleaned phone) ≡ true =
        rw p.is_text (AllDigits→digits_after_plus p.plus p.digits p.all_digits) in
      ground (arith, p.not_short, p.not_long),
)
