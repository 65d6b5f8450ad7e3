-- ===== src/Base/Numbers.antt =====
-- Printing of numbers by strconv.Itoa and by fmt's %x verbs, and reading them back.
use Prim.Native.Char.{Char, code}
use Prim.Native.String.{String, [], ◌∷◌, ◌++◌, count}
use Prim.Native.Nat.{ℕ, zero, suc, ◌+◌, ◌-◌, ◌*◌, ◌/◌, ◌%◌, ◌≤◌, ◌<◌}
use mathlib.Core.Path.{◌≡◌, refl, sym, ap, ◌∙◌}
use mathlib.Core.Logic.{inl, inr}
use mathlib.Core.Option.{Option, none, some}
use text.Mathlib.TextLemmas.{nil-append, cons-append}
use native.Mathlib.Omega.{arith}
use native.Mathlib.Nat.{mod-lt, mod-eq_of_lt, div-add-mod'}
use free5gc_udr.Base.Tests.{ltb, lt→ltb, ltb→lt, if◌then◌else◌, Bool-cases}

-- The digit of a value below 16, in lower case.
digit : ℕ → Char
digit zero = "0"
digit (suc zero) = "1"
digit (suc (suc zero)) = "2"
digit (suc (suc (suc zero))) = "3"
digit (suc (suc (suc (suc zero)))) = "4"
digit (suc (suc (suc (suc (suc zero))))) = "5"
digit (suc (suc (suc (suc (suc (suc zero)))))) = "6"
digit (suc (suc (suc (suc (suc (suc (suc zero))))))) = "7"
digit (suc (suc (suc (suc (suc (suc (suc (suc zero)))))))) = "8"
digit (suc (suc (suc (suc (suc (suc (suc (suc (suc zero))))))))) = "9"
digit (suc (suc (suc (suc (suc (suc (suc (suc (suc (suc zero)))))))))) = "a"
digit (suc (suc (suc (suc (suc (suc (suc (suc (suc (suc (suc zero))))))))))) = "b"
digit (suc (suc (suc (suc (suc (suc (suc (suc (suc (suc (suc (suc zero)))))))))))) = "c"
digit (suc (suc (suc (suc (suc (suc (suc (suc (suc (suc (suc (suc (suc zero))))))))))))) = "d"
digit (suc (suc (suc (suc (suc (suc (suc (suc (suc (suc (suc (suc (suc (suc zero)))))))))))))) = "e"
digit _ = "f"

-- The value of a digit: 0 to 9, a to f, A to F.
abbrev digit_of_code : ℕ → Option ℕ
digit_of_code c =
    if ltb c b'0'
    then none
    else if ltb c 58
    then some (c - b'0')
    else if ltb c b'A'
    then none
    else if ltb c b'G'
    then some (c - 55)
    else if ltb c b'a'
    then none
    else if ltb c b'g'
    then some (c - 87)
    else none

unfoldable pub digit_value : Char → Option ℕ
digit_value c = digit_of_code (code c)

-- The digits of `n` in front of `out`; `fuel` bounds the rounds.
print_digits : ℕ → ℕ → ℕ → String → String
print_digits base zero n out = digit (n % base) ∷ out
print_digits base (suc fuel) n out =
    let longer = print_digits base fuel (n / base) (digit (n % base) ∷ out) in
    if ltb n base then digit (n % base) ∷ out else longer

-- A number in a base from 2 to 16. The quotients fall, so `n` rounds are enough.
unfoldable pub print : ℕ → ℕ → String
unfolding print_digits digit
print base n = print_digits base n n []

-- The value of a text of digits below `base`, read from the left after `acc`.
unfoldable pub scan : ℕ → ℕ → String → Option ℕ
scan base acc [] = some acc
scan base acc (c ∷ s) = elim (digit_value c) [
  | none ↦ none
  | some d ↦ let rest = scan base (acc * base + d) s in if ltb d base then rest else none
]

-- Zeros in front of a text up to a width: the flag 0 with a width in fmt.
zeros : ℕ → String → String
zeros zero s = s
zeros (suc n) s = "0" ++ zeros n s

unfoldable pub pad_zeros : ℕ → String → String
unfolding zeros
pad_zeros width s = zeros (width - count s) s

digit_value-digit : (d : ℕ) → d < 16 → digit_value (digit d) ≡ some d
unfolding digit digit_value
digit_value-digit zero h = refl
digit_value-digit (suc zero) h = refl
digit_value-digit (suc (suc zero)) h = refl
digit_value-digit (suc (suc (suc zero))) h = refl
digit_value-digit (suc (suc (suc (suc zero)))) h = refl
digit_value-digit (suc (suc (suc (suc (suc zero))))) h = refl
digit_value-digit (suc (suc (suc (suc (suc (suc zero)))))) h = refl
digit_value-digit (suc (suc (suc (suc (suc (suc (suc zero))))))) h = refl
digit_value-digit (suc (suc (suc (suc (suc (suc (suc (suc zero)))))))) h = refl
digit_value-digit (suc (suc (suc (suc (suc (suc (suc (suc (suc zero))))))))) h = refl
digit_value-digit (suc (suc (suc (suc (suc (suc (suc (suc (suc (suc zero)))))))))) h = refl
digit_value-digit (suc (suc (suc (suc (suc (suc (suc (suc (suc (suc (suc zero))))))))))) h = refl
digit_value-digit (suc (suc (suc (suc (suc (suc (suc (suc (suc (suc (suc (suc zero)))))))))))) h =
    refl
digit_value-digit (suc (suc (suc (suc (suc (suc (suc (suc (suc (suc (suc (suc (suc zero)))))))))))))
      h =
    refl
digit_value-digit
      (suc (suc (suc (suc (suc (suc (suc (suc (suc (suc (suc (suc (suc (suc zero)))))))))))))) h =
    refl
digit_value-digit
      (suc (suc (suc (suc (suc (suc (suc (suc (suc (suc (suc (suc (suc (suc (suc zero)))))))))))))))
      h =
    refl
digit_value-digit
      (suc
        (suc (suc (suc (suc (suc (suc (suc (suc (suc (suc (suc (suc (suc (suc (suc d))))))))))))))))
      h =
    absurd (omega arith)

scan-digit :
    (base acc d : ℕ) (out : String)
    → d < base
    → base ≤ 16
    → scan base acc (digit d ∷ out) ≡ scan base (acc * base + d) out
unfolding scan
scan-digit base acc d out h k =
    rw (digit_value-digit d (omega arith), scan) (rw (lt→ltb d base h) refl)

scan-print_digits :
    (base fuel n : ℕ) (out : String)
    → 1 < base
    → base ≤ 16
    → n ≤ fuel
    → scan base 0 (print_digits base fuel n out) ≡ scan base n out
unfolding print_digits
scan-print_digits base zero n out lo hi h =
    scan-digit base 0 (n % base) out (mod-lt n (omega arith)) hi
    ∙ ap (λ k. scan base k out) (grind (arith, mod-eq_of_lt {n = n} {m = base}))
scan-print_digits base (suc fuel) n out lo hi h = elim (Bool-cases (ltb n base)) [
  | inl small ↦ rw small (
      scan-digit base 0 (n % base) out (mod-lt n (omega arith)) hi
      ∙ ap (λ k. scan base k out) (grind (arith, ltb→lt n base small)))
  | inr large ↦ rw large (
      scan-print_digits base fuel (n / base) (digit (n % base) ∷ out) lo hi (grind arith)
      ∙ scan-digit base (n / base) (n % base) out (mod-lt n (omega arith)) hi
      ∙ ap (λ k. scan base k out) (div-add-mod' n base))
]

-- What is printed reads back as the number, in every base up to 16.
pub scan-print : (base n : ℕ) → 1 < base → base ≤ 16 → scan base 0 (print base n) ≡ some n
unfolding print scan
scan-print base n lo hi = scan-print_digits base n n [] lo hi (omega arith)

pub print_injective : (base m n : ℕ) → 1 < base → base ≤ 16 → print base m ≡ print base n → m ≡ n
print_injective base m n lo hi e =
    let h : some m ≡ some n =
      sym (scan-print base m lo hi) ∙ ap (scan base 0) e ∙ scan-print base n lo hi in
    cc

scan-zeros : (base k : ℕ) (s : String) → 1 < base → scan base 0 (zeros k s) ≡ scan base 0 s
unfolding zeros scan digit_value
scan-zeros base zero s lo = refl
scan-zeros base (suc k) s lo =
    rw (cons-append, nil-append)
      (rw (lt→ltb 0 base (omega arith))
        (ap (λ n. scan base n (zeros k s)) (omega arith) ∙ scan-zeros base k s lo))

-- Leading zeros do not change the value.
pub scan-pad_zeros :
    (base width : ℕ) (s : String) → 1 < base → scan base 0 (pad_zeros width s) ≡ scan base 0 s
unfolding pad_zeros
scan-pad_zeros base width s lo = scan-zeros base (width - count s) s lo
