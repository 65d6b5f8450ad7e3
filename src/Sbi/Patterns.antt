-- ===== src/Sbi/Patterns.antt =====
-- The regular expressions of internal/sbi/api_datarepository.go. Go's regexp is in the standard
-- library: a pattern here is the test that it stands for. Also strings.Split at commas.
pub mod Laws
use Prim.Native.Char.{Char, code}
use Prim.Native.String.{String, [], ◌∷◌, ◌++◌}
use free5gc_udr.Base.{
  ℕ, Bool, true, false, ◌&&◌, ◌||◌, ◌==◌, ◌=ℕ=◌, if◌then◌else◌, Option, none, some, List, [], ◌∷◌,
}

-- The text after a prefix.
unfoldable pub strip : String → String → Option String
strip [] s = some s
strip (p ∷ ps) [] = none
strip (p ∷ ps) (c ∷ s) = if code c =ℕ= code p then strip ps s else none

-- No character of the text has the code.
unfoldable pub free_of : ℕ → String → Bool
free_of n [] = true
free_of n (c ∷ s) = if code c =ℕ= n then false else free_of n s

is_nonempty : String → Bool
is_nonempty [] = false
is_nonempty (c ∷ s) = true

-- `[^@]*@[^@]+`
rest_with_at : String → Bool
rest_with_at [] = false
rest_with_at (c ∷ s) = if code c =ℕ= b'@' then is_nonempty s && free_of b'@' s else rest_with_at s

-- `[^@]+@[^@]+`
one_at : String → Bool
one_at [] = false
one_at (c ∷ s) = if code c =ℕ= b'@' then false else rest_with_at s

after_prefix : Option String → Bool
after_prefix none = false
after_prefix (some s) = one_at s

-- `^(extgroupid-[^@]+@[^@]+|anyUE)$`
unfoldable pub is_ue_group_id : String → Bool
unfolding after_prefix strip one_at rest_with_at is_nonempty free_of
is_ue_group_id s = after_prefix (strip "extgroupid-" s) || s == "anyUE"

-- `^(imsi-[0-9]{5,15}|nai-.+|msisdn-[0-9]{5,15}|extid-[^@]+@[^@]+|gci-.+|gli-.+|.+)$`: whatever the
-- alternatives but the fourth match, `.+` does, which is any text of one line that is not empty.
unfoldable pub is_ue_id : String → Bool
unfolding after_prefix strip one_at rest_with_at is_nonempty free_of
is_ue_id s = after_prefix (strip "extid-" s) || (is_nonempty s && free_of 10 s)

-- strings.Split(s, ","): the parts before, between and after the commas.
put_first : Char → List String → List String
put_first c [] = []
put_first c (x ∷ xs) = (c ∷ x) ∷ xs

unfoldable pub split_comma : String → List String
unfolding put_first
split_comma [] = "" ∷ []
split_comma (c ∷ s) =
    let rest = split_comma s in if code c =ℕ= b',' then "" ∷ rest else put_first c rest
