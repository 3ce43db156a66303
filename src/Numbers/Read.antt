-- ===== src/Numbers/Read.antt =====
-- `std::stoi` and `std::istream >> uint32_t` in the C locale: white space, a sign, digits; what
-- follows the digits is left alone. `stoi` throws (`none`) where `>>` sets the failure bit (`none`).
use squirrel_debug_server.Base.{
  ℕ, suc, zero, ◌-◌, ◌%◌, ◌≡◌, ◌<◌, refl, ℤ, pos, negsuc, Bool, true, false, ◌&&◌, ◌||◌, Option,
  none, some, [], ◌∷◌, Text, leb, ◌==◌, if◌then◌else◌, arith,
}
use squirrel_debug_server.Watch.Chars.{is_digit}
use squirrel_debug_server.Watch.Strings.{span}
use squirrel_debug_server.Numbers.Digits.{
  digits_value, decimal, all_digits, is_empty, decimal-digits, digits_value-decimal,
  span-all_digits, decimal_not_empty,
}

abbrev pub is_space : ℕ → Bool
is_space c = c == 32 || (leb 9 c && leb c 13)

abbrev pub skip_space : Text → Text
skip_space [] = []
skip_space (c ∷ t) = if is_space c then skip_space t else c ∷ t

-- Whether there is a minus sign, and what follows the sign.
abbrev pub read_sign : Text → Bool × Text
read_sign [] = (false, [])
read_sign (c ∷ t) =
    if c == b'-' then (true, t) else (if c == b'+' then (false, t) else (false, c ∷ t))

abbrev pub negate : ℕ → ℤ
negate zero = pos 0
negate (suc n) = negsuc n

-- `int32_t` is -2147483648 to 2147483647.
abbrev pub to_int32 : Bool → ℕ → Option ℤ
to_int32 false n = if leb n 2147483647 then some (pos n) else none
to_int32 true n = if leb n 2147483648 then some (negate n) else none

-- A negative number in range wraps around.
abbrev pub to_uint32 : Bool → ℕ → Option ℕ
to_uint32 false n = if leb n 4294967295 then some n else none
to_uint32 true n = if leb n 4294967295 then some ((4294967296 - n) % 4294967296) else none

unfoldable pub read_digits {ℓ} : {A : Type ℓ} → (Bool → ℕ → Option A) → Text → Option A
unfolding digits_value span
read_digits convert t =
    let (sign, u) = read_sign (skip_space t) in
    let ds = (span is_digit u).0 in if is_empty ds then none else convert sign (digits_value 0 ds)

unfoldable pub stoi : Text → Option ℤ
unfolding read_digits
stoi = read_digits to_int32

unfoldable pub read_uint32 : Text → Option ℕ
unfolding read_digits
read_uint32 = read_digits to_uint32

sign_of_digits :
    (s : Text) → all_digits s ≡ true → is_empty s ≡ false → read_sign (skip_space s) ≡ (false, s)
sign_of_digits [] h e = ground arith
sign_of_digits (c ∷ s) h e = ground arith

-- Decimal text is read as its number.
pub read_digits-decimal {ℓ} :
    {A : Type ℓ} (convert : Bool → ℕ → Option A) (n : ℕ)
    → read_digits convert (decimal n) ≡ convert false n
unfolding read_digits span
read_digits-decimal convert n =
    rw
      (
        sign_of_digits (decimal n) (decimal-digits n) (decimal_not_empty n),
        span-all_digits (decimal n) (decimal-digits n),
        decimal_not_empty n,
        digits_value-decimal n,
      )
      refl

pub stoi-decimal : (n : ℕ) → n < 2147483648 → stoi (decimal n) ≡ some (pos n)
unfolding stoi
stoi-decimal n h = ground (arith, read_digits-decimal to_int32 n)

pub read_uint32-decimal : (n : ℕ) → n < 4294967296 → read_uint32 (decimal n) ≡ some n
unfolding read_uint32
read_uint32-decimal n h = ground (arith, read_digits-decimal to_uint32 n)

pub read_uint32-lt : (t : Text) (n : ℕ) → read_uint32 t ≡ some n → n < 4294967296
unfolding read_uint32 read_digits
read_uint32-lt t n h = ground arith
