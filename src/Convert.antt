-- ===== src/Convert.antt =====
-- internal/util/convert.go: S-NSSAIs as hexadecimal text, and DNNs as keys of documents.
pub mod Laws
use Prim.Native.Char.{Char, code}
use Prim.Native.Nat.{◌^◌}
use Prim.Native.String.{String, [], ◌∷◌, ◌++◌}
use free5gc_udr.Base.{ℕ, suc, ◌+◌, ◌-◌, Bool, Option, none, some, ltb, ◌=ℕ=◌, if◌then◌else◌}
use free5gc_udr.Base.Int.{ℤ, pos, negsuc}
use free5gc_udr.Base.Numbers.{print, pad_zeros, scan}
use free5gc_udr.Models.{Snssai}

-- fmt's %02x of an int32: the width counts the sign.
unfoldable pub hex2 : ℤ → String
hex2 (pos n) = pad_zeros 2 (print 16 n)
hex2 (negsuc n) = "-" ++ pad_zeros 1 (print 16 (suc n))

unfoldable pub snssai_models_to_hex : Snssai → String
unfolding hex2
snssai_models_to_hex s = hex2 s.sst ++ s.sd

-- What a call gives: a value, an error, or the panic of a slice out of range.
pub data Converted (A : Type 0) : Type 0 where
  ok : A → Converted A
  failed : Converted A
  panicked : Converted A

-- strconv.ParseInt(s, 16, 32): digits after an optional sign, within 32 bits.
digits_only : String → Option ℕ
digits_only [] = none
digits_only (c ∷ s) = scan 16 0 (c ∷ s)

signed : Option ℕ → Bool → Option ℤ
signed none negative = none
signed (some n) Bool.true =
    if ltb (2 ^ 31) n then none else if n =ℕ= 0 then some (pos 0) else some (negsuc (n - 1))
signed (some n) Bool.false = if ltb n (2 ^ 31) then some (pos n) else none

unfoldable pub parse_int_16_32 : String → Option ℤ
unfolding digits_only signed
parse_int_16_32 [] = none
parse_int_16_32 (c ∷ s) =
    if code c =ℕ= b'-'
    then signed (digits_only s) Bool.true
    else if code c =ℕ= b'+'
    then signed (digits_only s) Bool.false
    else signed (digits_only (c ∷ s)) Bool.false

-- The parsed first two bytes with the bytes after them.
parsed : Option ℤ → String → Converted Snssai
parsed none rest = failed
parsed (some sst) rest = ok (record { sst = sst; sd = rest })

-- The slices `hexString[:2]` and `hexString[2:]` are of bytes. A first character beyond ASCII is at
-- least two bytes, none of them a digit; a second one leaves a byte that is no digit: an error.
unfoldable pub snssai_hex_to_models : String → Converted Snssai
unfolding parsed parse_int_16_32
snssai_hex_to_models [] = panicked
snssai_hex_to_models (c ∷ []) = if ltb (code c) 128 then panicked else failed
snssai_hex_to_models (c ∷ d ∷ rest) = parsed (parse_int_16_32 (c ∷ d ∷ [])) rest

-- strings.ReplaceAll of one character by another.
replace_all : ℕ → Char → String → String
replace_all old new [] = []
replace_all old new (c ∷ s) = (if code c =ℕ= old then new else c) ∷ replace_all old new s

unfoldable pub escape_dnn : String → String
unfolding replace_all
escape_dnn dnn = replace_all b'.' "_" dnn

unfoldable pub unescape_dnn : String → String
unfolding replace_all
unescape_dnn dnn_key = replace_all b'_' "." dnn_key
