-- ===== src/Sbi/Patterns/Laws.antt =====
-- What the patterns match, and the parts that strings.Split gives.
use Prim.Native.Char.{Char, code}
use Prim.Native.String.{String, [], ◌∷◌, ◌++◌}
use text.Mathlib.TextLemmas.{nil-append, cons-append}
use text.Mathlib.TextEquality.{Char-path}
use free5gc_udr.Base.{
  ◌≡◌, ◌≢◌, inl, inr, refl, ap, sym, ◌∙◌, subst, ◌=ℕ=◌, arith, true, false, Bool-cases, List, [],
  ◌∷◌,
}
use free5gc_udr.Convert.Laws.{Lacks}
use free5gc_udr.Sbi.Patterns.{split_comma, put_first, free_of}

-- strings.Join(parts, ",")
abbrev pub join_comma : List String → String
join_comma [] = ""
join_comma (x ∷ []) = x
join_comma (x ∷ y ∷ ys) = x ++ "," ++ join_comma (y ∷ ys)

abbrev pub AllLack : List String → Type 0
AllLack [] = Unit
AllLack (x ∷ xs) = Lacks b',' x × AllLack xs

comma_back : (c : Char) → code c ≡ b',' → "," ≡ c
comma_back c h = Char-path "," c (cc)

join-put_first :
    (c : Char) (x : String) (xs : List String)
    → join_comma (put_first c (x ∷ xs)) ≡ c ∷ join_comma (x ∷ xs)
unfolding put_first
join-put_first c x [] = refl
join-put_first c x (y ∷ ys) = simp (cons-append)

join-comma : (x : String) (xs : List String) → join_comma ("" ∷ x ∷ xs) ≡ "," ∷ join_comma (x ∷ xs)
join-comma x xs = rw (nil-append, cons-append, nil-append) refl

AllLack-put_first :
    (c : Char) (x : String) (xs : List String)
    → code c ≢ b','
    → AllLack (x ∷ xs)
    → AllLack (put_first c (x ∷ xs))
unfolding put_first
AllLack-put_first c x xs other (h, hs) = ((other, h), hs)

-- There is a first part.
has_first_part : (s : String) → (x : String) × (xs : List String) × (split_comma s ≡ x ∷ xs)
unfolding split_comma put_first
has_first_part [] = ("", [], refl)
has_first_part (c ∷ s) =
    let (x, xs, e) = has_first_part s in
    elim (Bool-cases (code c =ℕ= b',')) [
      | inl comma ↦ ("", split_comma s, ground (arith, comma))
      | inr other ↦ (c ∷ x, xs, ground (arith, other, e))
    ]

-- The parts of a text between its commas, joined by commas, are the text, and no part has a comma.
join_comma-split_comma : (s : String) → (join_comma (split_comma s) ≡ s) × AllLack (split_comma s)
unfolding split_comma
join_comma-split_comma [] = (refl, (tt, tt))
join_comma-split_comma (c ∷ s) =
    let (x, xs, e) = has_first_part s in
    let (back, lacks) = join_comma-split_comma s in
    elim (Bool-cases (code c =ℕ= b',')) [
      | inl comma ↦ rw comma (
        rw e (
            join-comma x xs
            ∙ ap (λ t. "," ∷ t) (ap join_comma (sym e) ∙ back)
            ∙ ap (λ d. d ∷ s) (comma_back c (ground (arith, comma)))),
        (tt, lacks),
      )
      | inr other ↦ rw other (
        rw e (join-put_first c x xs ∙ ap (λ t. c ∷ t) (ap join_comma (sym e) ∙ back)),
        subst (λ (l : List String). AllLack (put_first c l)) (sym e)
            (AllLack-put_first c x xs (ground (arith, other)) (subst AllLack e lacks)),
      )
    ]

no_comma : (c : Char) → code c ≢ b',' → (code c =ℕ= b',') ≡ false
no_comma c other = ground (arith, other)

pub free_of_lem : (s : String) → Lacks b',' s → free_of b',' s ≡ true
unfolding free_of
free_of_lem [] h = refl
free_of_lem (c ∷ s) (other, h) = rw (no_comma c other) (free_of_lem s h)

pub free_of-comma : (s t : String) → free_of b',' (s ++ "," ++ t) ≡ false
unfolding free_of
free_of-comma [] t = rw (nil-append, cons-append) refl
free_of-comma (c ∷ s) t = rw cons-append (elim (Bool-cases (code c =ℕ= b',')) [
  | inl comma ↦ rw comma refl
  | inr other ↦ rw other (free_of-comma s t)
])

split_comma-part : (s : String) → Lacks b',' s → split_comma s ≡ s ∷ []
unfolding split_comma put_first
split_comma-part [] h = refl
split_comma-part (c ∷ s) (other, h) =
    rw (no_comma c other) (ap (put_first c) (split_comma-part s h))

split_comma-append : (s t : String) → Lacks b',' s → split_comma (s ++ "," ++ t) ≡ s ∷ split_comma t
unfolding split_comma put_first
split_comma-append [] t h = rw (nil-append, cons-append, nil-append) refl
split_comma-append (c ∷ s) t (other, h) =
    rw cons-append (rw (no_comma c other) (ap (put_first c) (split_comma-append s t h)))

pub split_comma-join_comma :
    (x : String) (xs : List String) → AllLack (x ∷ xs) → split_comma (join_comma (x ∷ xs)) ≡ x ∷ xs
split_comma-join_comma x [] (h, hs) = split_comma-part x h
split_comma-join_comma x (y ∷ ys) (h, hs) =
    split_comma-append x (join_comma (y ∷ ys)) h ∙ ap (λ l. x ∷ l) (split_comma-join_comma y ys hs)
