-- ===== src/Convert/Laws.antt =====
-- Round trips of the conversions of internal/util/convert.go.
use Prim.Native.Char.{Char, code}
use Prim.Native.String.{String, [], ◌∷◌, ◌++◌}
use text.Mathlib.TextLemmas.{nil-append, cons-append}
use text.Mathlib.TextEquality.{Char-path}
use free5gc_udr.Base.{
  ℕ, zero, suc, ◌<◌, ◌&&◌, Option, none, some, ◌≡◌, ◌≢◌, refl, ap, Bool, true, false, arith, ◌=ℕ=◌,
  ◌⊎◌, inl, inr, Bool-cases,
}
use free5gc_udr.Base.Int.{ℤ, pos, ℤ_eq}
use free5gc_udr.Base.Numbers.{print, pad_zeros, scan, digit_value}
use free5gc_udr.DeepEqual.{ℤ_eq_sound}
use free5gc_udr.Models.{Snssai}
use free5gc_udr.Convert.{
  hex2, snssai_models_to_hex, snssai_hex_to_models, ok, replace_all, escape_dnn, unescape_dnn,
  parse_int_16_32, parsed,
}

-- No character of a text has the code.
abbrev pub Lacks : ℕ → String → Type 0
Lacks n [] = Unit {0}
Lacks n (c ∷ s) = (code c ≢ n) × Lacks n s

dot_back : (c : Char) → code c ≡ b'.' → "." ≡ c
dot_back c h = Char-path "." c (cc)

different : (c : Char) → code c ≢ b'_' → (code c =ℕ= b'_') ≡ false
different c h = ground arith

replaced_twice : (s : String) → Lacks b'_' s → replace_all b'_' "." (replace_all b'.' "_" s) ≡ s
unfolding replace_all
replaced_twice [] h = refl
replaced_twice (c ∷ s) (other, h) = elim (Bool-cases (code c =ℕ= b'.')) [
  | inl dot ↦ rw dot (rw (dot_back c (ground arith)) (ap (λ t. c ∷ t) (replaced_twice s h)))
  | inr no_dot ↦ rw no_dot (rw (different c other) (ap (λ t. c ∷ t) (replaced_twice s h)))
]

-- A data network name with no underscore comes back from the key that it was escaped to.
pub unescape_dnn-escape_dnn : (dnn : String) → Lacks b'_' dnn → unescape_dnn (escape_dnn dnn) ≡ dnn
unfolding unescape_dnn escape_dnn
unescape_dnn-escape_dnn dnn h = replaced_twice dnn h

is_number : Option ℤ → ℕ → Bool
is_number none n = false
is_number (some z) n = ℤ_eq z (pos n)

is_number_sound : (o : Option ℤ) (n : ℕ) → is_number o n ≡ true → o ≡ some (pos n)
unfolding is_number
is_number_sound none n h = cc
is_number_sound (some z) n h = ap some (ℤ_eq_sound z (pos n) h)

-- Whether a text is two characters that are read as a number.
reads : String → ℕ → Bool
reads [] n = false
reads (c ∷ []) n = false
reads (c ∷ d ∷ []) n = is_number (parse_int_16_32 (c ∷ d ∷ [])) n
reads (c ∷ d ∷ e ∷ s) n = false

reads_sound :
    (s : String) (n : ℕ) (sd : String)
    → reads s n ≡ true
    → snssai_hex_to_models (s ++ sd) ≡ ok (record { sst = pos n; sd = sd })
unfolding reads snssai_hex_to_models parsed
reads_sound [] n sd h = cc
reads_sound (c ∷ []) n sd h = cc
reads_sound (c ∷ d ∷ []) n sd h =
    rw (cons-append, cons-append, nil-append)
      (ap (λ o. parsed o sd) (is_number_sound (parse_int_16_32 (c ∷ d ∷ [])) n h))
reads_sound (c ∷ d ∷ e ∷ s) n sd h = cc

all_read : ℕ → Bool
all_read zero = true
all_read (suc n) = reads (hex2 (pos n)) n && all_read n

all_read_sound : (n k : ℕ) → k < n → all_read n ≡ true → reads (hex2 (pos k)) k ≡ true
unfolding all_read
all_read_sound zero k h e = absurd (omega arith)
all_read_sound (suc n) k h e = elim (k-cases) [
  | inl same ↦ rw same (ground arith)
  | inr less ↦ all_read_sound n k less (ground arith)
]
  where
    k-cases : (k ≡ n) ⊎ (k < n)
    k-cases = grind arith

bytes : all_read 256 ≡ true
unfolding all_read reads is_number hex2 parse_int_16_32 pad_zeros print scan digit_value
bytes = refl

-- An S-NSSAI whose SST is a byte comes back from its hexadecimal text, whatever its SD is.
pub snssai_hex_to_models-snssai_models_to_hex :
    (n : ℕ) (sd : String)
    → n < 256
    → (let s : Snssai = record { sst = pos n; sd = sd } in
        snssai_hex_to_models (snssai_models_to_hex s) ≡ ok s)
unfolding snssai_models_to_hex
snssai_hex_to_models-snssai_models_to_hex n sd h =
    reads_sound (hex2 (pos n)) n sd (all_read_sound 256 n h bytes)
