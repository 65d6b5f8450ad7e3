-- ===== src/Base/Int.antt =====
-- Signed machine integers, strconv.Itoa and strconv.ParseInt.
use Prim.Native.Char.{code}
use Prim.Native.String.{String, [], ◌∷◌, ◌++◌}
use Prim.Native.Nat.{ℕ, zero, suc, ◌+◌, ◌-◌, ◌*◌, ◌%◌, ◌^◌, ◌<◌}
use mathlib.Core.Path.{◌≡◌, refl, ap, sym, ◌∙◌}
use mathlib.Core.Logic.{◌≢◌}
use mathlib.Core.Bool.{Bool, true, false}
use mathlib.Core.Option.{Option, none, some}
use native.Mathlib.Omega.{arith}
use text.Mathlib.TextLemmas.{cons-append, append_cancel_left}
use free5gc_udr.Base.Tests.{ltb, if◌then◌else◌, lt→ltb, ◌=ℕ=◌}
use free5gc_udr.Base.Numbers.{print, scan, scan-print, print_injective, digit_value}

-- `negsuc n` is -(n + 1).
pub data ℤ : Type 0 where
  pos : ℕ → ℤ
  negsuc : ℕ → ℤ

-- `==` of two integers.
abbrev pub ℤ_eq : ℤ → ℤ → Bool
ℤ_eq (pos m) (pos n) = m =ℕ= n
ℤ_eq (negsuc m) (negsuc n) = m =ℕ= n
ℤ_eq _ _ = false

-- `i++` of an int, 64 bits wide: the largest value is followed by the least.
unfoldable pub increment : ℤ → ℤ
increment (pos n) = if ltb (suc n) (2 ^ 63) then pos (suc n) else negsuc n
increment (negsuc zero) = pos 0
increment (negsuc (suc n)) = negsuc n

-- `int32(x)`: the low 32 bits, read as a signed number.
of_int32_bits : ℕ → ℤ
of_int32_bits b = if ltb b (2 ^ 31) then pos b else negsuc (2 ^ 32 - b - 1)

unfoldable pub to_int32 : ℤ → ℤ
unfolding of_int32_bits
to_int32 (pos n) = of_int32_bits (n % 2 ^ 32)
to_int32 (negsuc n) = of_int32_bits (2 ^ 32 - 1 - n % 2 ^ 32)

unfoldable pub itoa : ℤ → String
unfolding print
itoa (pos n) = print 10 n
itoa (negsuc n) = "-" ++ print 10 (suc n)

-- The digits of a text below `base` after `acc`; the first digit that makes the number larger than
-- `most` ends the reading with `most`. `none` is a syntax error.
unfoldable pub read_digits : ℕ → ℕ → ℕ → String → Option ℕ
read_digits base most acc [] = some acc
read_digits base most acc (c ∷ s) = elim (digit_value c) [
  | none ↦ none
  | some d ↦
      let rest = read_digits base most (acc * base + d) s in
      if ltb d base then (if ltb most (acc * base + d) then some most else rest) else none
]

unfoldable pub parse_uint : ℕ → ℕ → String → Option ℕ
parse_uint base bits [] = none
parse_uint base bits (c ∷ s) = read_digits base (2 ^ bits - 1) 0 (c ∷ s)

-- The number with its sign, cut off at the largest and the least one of the width.
unfoldable pub clamped : ℕ → Bool → Option ℕ → ℤ
clamped bits negative none = pos 0
clamped bits false (some n) = if ltb n (2 ^ (bits - 1)) then pos n else pos (2 ^ (bits - 1) - 1)
clamped bits true (some zero) = pos 0
clamped bits true (some (suc n)) =
    if ltb (suc n) (2 ^ (bits - 1)) then negsuc n else negsuc (2 ^ (bits - 1) - 1)

-- The number that strconv.ParseInt(s, base, bits) returns, also beside an error: 0 for a text that
-- is no number, and the nearest number for one that is out of range.
unfoldable pub parse_int : ℕ → ℕ → String → ℤ
unfolding clamped parse_uint read_digits
parse_int base bits [] = pos 0
parse_int base bits (c ∷ s) =
    if code c =ℕ= b'-'
    then clamped bits true (parse_uint base bits s)
    else if code c =ℕ= b'+'
    then clamped bits false (parse_uint base bits s)
    else clamped bits false (parse_uint base bits (c ∷ s))

pub increment_pos : (n : ℕ) → suc n < 2 ^ 63 → increment (pos n) ≡ pos (suc n)
unfolding increment
increment_pos n h = rw (lt→ltb (suc n) (2 ^ 63) h)

scan_minus : (s : String) → scan 10 0 ("-" ++ s) ≡ none
unfolding scan digit_value
scan_minus s = rw cons-append refl

print-ne-minus : (n : ℕ) (s : String) → print 10 n ≢ "-" ++ s
print-ne-minus n s e =
    let h : some n ≡ none =
      sym (scan-print 10 n (omega arith) (omega arith)) ∙ ap (scan 10 0) e ∙ scan_minus s in
    cc

-- Two integers that print alike are equal.
pub itoa_injective : (a b : ℤ) → itoa a ≡ itoa b → a ≡ b
unfolding itoa
itoa_injective (pos m) (pos n) e = ap pos (print_injective 10 m n (omega arith) (omega arith) e)
itoa_injective (pos m) (negsuc n) e = absurd (print-ne-minus m _ e)
itoa_injective (negsuc m) (pos n) e = absurd (print-ne-minus n _ (sym e))
itoa_injective (negsuc m) (negsuc n) e =
    ap negsuc (suc_inj (print_injective 10 (suc m) (suc n) (omega arith) (omega arith) (tail_eq e)))
  where
    tail_eq :
        "-" ++ print 10 (suc m) ≡ "-" ++ print 10 (suc n) → print 10 (suc m) ≡ print 10 (suc n)
    tail_eq h = append_cancel_left "-" _ _ h

    suc_inj : suc m ≡ suc n → m ≡ n
    suc_inj h = omega arith
