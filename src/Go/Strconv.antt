-- ===== src/Go/Strconv.antt =====
-- `strconv.Itoa` and `strconv.Atoi`, for a 64-bit `int`.
use Prim.Native.Char.{Char, code}
use Prim.Native.String.{String}
use android_device_farm.Common.{
  ℕ, zero, suc, ◌+◌, ◌-◌, ◌*◌, ◌/◌, ◌%◌, ◌^◌, ◌<◌, ◌≡◌, refl, Option, none, some, arith, ltb, leb,
  ◌==◌, if◌then◌else◌, ◌&&◌, Bool-cases, inl, inr,
}
use android_device_farm.Common.Int.{ℤ, pos, negsuc}

abbrev digit_char : ℕ → Char
digit_char n =
    if n == 0
    then "0"
    else if n == 1
    then "1"
    else if n == 2
    then "2"
    else if n == 3
    then "3"
    else if n == 4
    then "4"
    else if n == 5
    then "5"
    else if n == 6
    then "6"
    else if n == 7
    then "7"
    else if n == 8
    then "8"
    else "9"

-- The digits of `n` before `rest`.
print_digits : ℕ → ℕ → String → String
print_digits zero n rest = rest
print_digits (suc f) n rest =
    let more = print_digits f (n / 10) (String.◌∷◌ (digit_char (n % 10)) rest) in
    if ltb n 10 then String.◌∷◌ (digit_char n) rest else more

itoa_nat : ℕ → String
unfolding print_digits
itoa_nat n = print_digits (suc n) n ""

unfoldable pub itoa : ℤ → String
unfolding itoa_nat
itoa (pos n) = itoa_nat n
itoa (negsuc n) = String.◌∷◌ "-" (itoa_nat (suc n))

-- The value of a run of digits after `acc`; `none` on any other character.
parse_digits : ℕ → String → Option ℕ
parse_digits acc String.[] = some acc
parse_digits acc (String.◌∷◌ c s) =
    let d = code c in
    let rest = parse_digits (acc * 10 + (d - 48)) s in if leb 48 d && leb d 57 then rest else none

abbrev max_int : ℕ
max_int = 2 ^ 63

abbrev positive : Option ℕ → Option ℤ
positive none = none
positive (some n) = if ltb n max_int then some (pos n) else none

abbrev negative : Option ℕ → Option ℤ
negative none = none
negative (some zero) = some (pos 0)
negative (some (suc n)) = if ltb n max_int then some (negsuc n) else none

-- One digit at least.
nonempty_digits : String → Option ℕ
unfolding parse_digits
nonempty_digits String.[] = none
nonempty_digits (String.◌∷◌ c s) = parse_digits 0 (String.◌∷◌ c s)

-- A sign and digits, within the range of `int64`.
unfoldable pub atoi : String → Option ℤ
unfolding nonempty_digits
atoi String.[] = none
atoi (String.◌∷◌ c s) =
    if code c == b'-'
    then negative (nonempty_digits s)
    else if code c == b'+'
    then positive (nonempty_digits s)
    else positive (parse_digits 0 (String.◌∷◌ c s))

test_atoi : atoi "-12" ≡ some (negsuc 11)
unfolding atoi
test_atoi = refl

test_itoa : itoa (pos 3407) ≡ "3407"
unfolding itoa
test_itoa = refl

code-digit_char : (n : ℕ) → n < 10 → code (digit_char n) ≡ 48 + n
code-digit_char zero h = refl
code-digit_char (suc zero) h = refl
code-digit_char (suc (suc zero)) h = refl
code-digit_char (suc (suc (suc zero))) h = refl
code-digit_char (suc (suc (suc (suc zero)))) h = refl
code-digit_char (suc (suc (suc (suc (suc zero))))) h = refl
code-digit_char (suc (suc (suc (suc (suc (suc zero)))))) h = refl
code-digit_char (suc (suc (suc (suc (suc (suc (suc zero))))))) h = refl
code-digit_char (suc (suc (suc (suc (suc (suc (suc (suc zero)))))))) h = refl
code-digit_char (suc (suc (suc (suc (suc (suc (suc (suc (suc zero))))))))) h = refl
code-digit_char (suc (suc (suc (suc (suc (suc (suc (suc (suc (suc n)))))))))) h =
    absurd (omega arith)

parse_digits-cons :
    (acc n : ℕ) (rest : String)
    → n < 10
    → parse_digits acc (String.◌∷◌ (digit_char n) rest) ≡ parse_digits (acc * 10 + n) rest
unfolding parse_digits
parse_digits-cons acc n rest h = ground (arith, code-digit_char n h)

-- With fuel above the number, reading what was printed goes on from the number.
parse-print :
    (f n : ℕ) (rest : String) → n < f → parse_digits 0 (print_digits f n rest) ≡ parse_digits n rest
unfolding print_digits
parse-print zero n rest h = absurd (omega arith)
parse-print (suc f) n rest h = ground (
  arith,
  parse_digits-cons 0 n rest,
  parse_digits-cons (n / 10) (n % 10) rest,
  parse-print f (n / 10) (String.◌∷◌ (digit_char (n % 10)) rest),
)

-- The first character of a printed number is a digit.
print_digits-head :
    (f n : ℕ) (rest : String)
    → n < f
    → (d : ℕ) × (s : String) × (d < 10) × (print_digits f n rest ≡ String.◌∷◌ (digit_char d) s)
unfolding print_digits
print_digits-head zero n rest h = absurd (omega arith)
print_digits-head (suc f) n rest h = elim (Bool-cases (ltb n 10)) [
  | inl small ↦ (n, rest, ground arith, rw small)
  | inr big ↦
      rw big (print_digits-head f (n / 10) (String.◌∷◌ (digit_char (n % 10)) rest) (ground arith))
]

atoi-digit :
    (d : ℕ) (s : String)
    → d < 10
    → atoi (String.◌∷◌ (digit_char d) s) ≡ positive (parse_digits 0 (String.◌∷◌ (digit_char d) s))
unfolding atoi
atoi-digit d s h = ground (arith, code-digit_char d h)

atoi_digits :
    (n d : ℕ) (s t : String)
    → n < 2 ^ 63
    → d < 10
    → t ≡ String.◌∷◌ (digit_char d) s
    → parse_digits 0 t ≡ some n
    → atoi t ≡ some (pos n)
atoi_digits n d s t h small e back = rw (e, atoi-digit d s small, ← e, back) (ground arith)

-- `Atoi` reads back what `Itoa` printed, for a number in the range of `int`.
pub atoi-itoa : (n : ℕ) → n < 2 ^ 63 → atoi (itoa (pos n)) ≡ some (pos n)
unfolding itoa parse_digits
atoi-itoa n h =
    let (d, s, small, e) = print_digits-head (suc n) n "" (omega arith) in
    atoi_digits n d s (print_digits (suc n) n "") h small e (parse-print (suc n) n "" (omega arith))
