-- ===== src/Numbers/Digits.antt =====
-- Decimal digits: the number that they spell, and the digits of a number.
use squirrel_debug_server.Base.{
  ℕ, zero, suc, ◌+◌, ◌*◌, ◌/◌, ◌%◌, ◌≡◌, ◌<◌, refl, Bool, true, false, [], ◌∷◌, Text, ltb,
  if◌then◌else◌, arith, ◌-◌,
}
use squirrel_debug_server.Watch.Chars.{is_digit}
use squirrel_debug_server.Watch.Strings.{span}

-- The number that the digits spell, after `n`.
unfoldable pub digits_value : ℕ → Text → ℕ
digits_value n [] = n
digits_value n (c ∷ cs) = digits_value (n * 10 + (c - b'0')) cs

unfoldable pub decimal_loop : ℕ → ℕ → Text → Text
decimal_loop zero n cs = cs
decimal_loop (suc f) n cs =
    let rest = decimal_loop f (n / 10) ((b'0' + n % 10) ∷ cs) in
    if ltb n 10 then (b'0' + n) ∷ cs else rest

-- The decimal text of a number. Each step divides it by ten, so `n + 1` steps are enough.
unfoldable pub decimal : ℕ → Text
unfolding decimal_loop
decimal n = decimal_loop (suc n) n []

abbrev pub all_digits : Text → Bool
all_digits [] = true
all_digits (c ∷ cs) = if is_digit c then all_digits cs else false

decimal_loop-digits :
    (f n : ℕ) (cs : Text) → all_digits cs ≡ true → all_digits (decimal_loop f n cs) ≡ true
unfolding decimal_loop
decimal_loop-digits zero n cs h = h
decimal_loop-digits (suc f) n cs h =
    ground (arith, decimal_loop-digits f (n / 10) ((b'0' + n % 10) ∷ cs))

pub decimal-digits : (n : ℕ) → all_digits (decimal n) ≡ true
unfolding decimal
decimal-digits n = decimal_loop-digits (suc n) n [] refl

-- Reading what the loop writes continues from the number with the digits that it already has.
digits_value-decimal_loop :
    (f n : ℕ) (cs : Text) → n < f → digits_value 0 (decimal_loop f n cs) ≡ digits_value n cs
unfolding decimal_loop digits_value
digits_value-decimal_loop zero n cs h = omega arith
digits_value-decimal_loop (suc f) n cs h =
    ground (arith, digits_value-decimal_loop f (n / 10) ((b'0' + n % 10) ∷ cs))

-- The decimal text of a number spells that number.
pub digits_value-decimal : (n : ℕ) → digits_value 0 (decimal n) ≡ n
unfolding decimal digits_value
digits_value-decimal n = digits_value-decimal_loop (suc n) n [] (omega arith)

pub span-all_digits : (s : Text) → all_digits s ≡ true → span is_digit s ≡ (s, [])
unfolding span
span-all_digits [] h = refl
span-all_digits (c ∷ s) h = ground (arith, span-all_digits s)

abbrev pub is_empty : Text → Bool
is_empty [] = true
is_empty (c ∷ cs) = false

decimal_loop_not_empty : (f n c : ℕ) (cs : Text) → is_empty (decimal_loop f n (c ∷ cs)) ≡ false
unfolding decimal_loop
decimal_loop_not_empty zero n c cs = refl
decimal_loop_not_empty (suc f) n c cs =
    ground (arith, decimal_loop_not_empty f (n / 10) (b'0' + n % 10) (c ∷ cs))

pub decimal_not_empty : (n : ℕ) → is_empty (decimal n) ≡ false
unfolding decimal decimal_loop
decimal_not_empty n = ground (arith, decimal_loop_not_empty n (n / 10) (b'0' + n % 10) [])
