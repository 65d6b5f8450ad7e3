-- ===== src/Counters.antt =====
-- The identifiers that the counters of internal/context/context.go hand out: what a table keyed by
-- them keeps, whichever table it is.
use Prim.Native.String.{String}
use free5gc_udr.Base.{
  ℕ, suc, ◌^◌, ◌≤◌, ◌<◌, ◌≡◌, sym, ap, ◌∙◌, ◌⊎◌, inl, inr, Option, none, some, arith, Option-cases,
  ==_cases, assign,
}
use free5gc_udr.Base.Int.{ℤ, pos, increment, increment_pos, itoa, itoa_injective}

-- An identifier that a counter which stands at `n` has handed out: it counts from 1.
abbrev pub Issued : ℕ → String → Type 0
Issued n id = (j : ℕ) × (0 < j) × (j < n) × (id ≡ itoa (pos j))

-- The number of a counter that has handed out at most `k` identifiers, and a table all of whose
-- keys it handed out.
pub record Counted {V : Type 0} (k : ℕ) (counter : ℤ) (at : String → String → Option V)
    : Type 0 where
  pub number : ℕ
  pub is_pos : counter ≡ pos number
  pub positive : 0 < number
  pub bounded : number ≤ suc k
  pub issued : (a id : String) (v : V) → at a id ≡ some v → Issued number id

module _ {V : Type 0} {k : ℕ} {counter : ℤ} {at : String → String → Option V} where
  -- The identifier that is handed out next is no key of the table.
  pub next_is_fresh : Counted k counter at → (a : String) → at a (itoa counter) ≡ none
  next_is_fresh c a = elim (Option-cases (at a (itoa counter))) [
    | inl e ↦ e
    | inr (v, e) ↦
        let (j, _, below, same) = c.issued a (itoa counter) v e in
        let equal : pos c.number ≡ pos j = sym c.is_pos ∙ itoa_injective counter (pos j) same in
        absurd (ground arith)
  ]

  -- A table with no new key keeps the property, whether or not time goes on.
  pub Counted-sub :
      {W : Type 0} {at' : String → String → Option W}
      → Counted k counter at
      → ((a id : String) (w : W) → at' a id ≡ some w → (v : V) × (at a id ≡ some v))
      → Counted (suc k) counter at'
  Counted-sub c h = record {
    number = c.number;
    is_pos = c.is_pos;
    positive = c.positive;
    bounded = omega (arith, c.bounded);
    issued = λ a id w e. let (v, e') = h a id w e in c.issued a id v e';
  }

  -- A table with a new key under the next identifier keeps it as the counter goes on, if the counter
  -- is not at the largest int.
  pub Counted-next :
      {W : Type 0} {at' : String → String → Option W}
      → suc (suc k) < 2 ^ 63
      → Counted k counter at
      → ((a id : String) (w : W)
          → at' a id ≡ some w
          → (id ≡ itoa counter) ⊎ ((v : V) × (at a id ≡ some v)))
      → Counted (suc k) (increment counter) at'
  Counted-next {at'} room c h = record {
    number = suc c.number;
    is_pos = ap increment c.is_pos ∙ increment_pos c.number (omega (arith, c.bounded));
    positive = omega arith;
    bounded = omega (arith, c.bounded);
    issued = λ a id w e. grown a id (h a id w e);
  }
    where
      grown :
          (a id : String)
          → (id ≡ itoa counter) ⊎ ((v : V) × (at a id ≡ some v))
          → Issued (suc c.number) id
      grown a id (inl e) = (c.number, c.positive, omega arith, e ∙ ap itoa c.is_pos)
      grown a id (inr (v, e)) =
          let (j, above, below, same) = c.issued a id v e in (j, above, omega (arith, below), same)

-- Two ways in which a table changes.
module _ {V : Type 0} (at at' : String → String → Option V) (a b : String) where
  -- What is there after an assignment of none was there before.
  pub sub_of_removed :
      ((a' b' : String) → at' a' b' ≡ assign at a b none a' b')
      → (a' b' : String) (w : V) → at' a' b' ≡ some w
      → (v : V) × (at a' b' ≡ some v)
  sub_of_removed h a' b' w e = (w, ground (arith, h a' b'))

  -- What is there after an assignment is the new value or was there before.
  pub next_of_assigned :
      (v : V)
      → ((a' b' : String) → at' a' b' ≡ assign at a b (some v) a' b')
      → (a' b' : String) (w : V) → at' a' b' ≡ some w
      → (b' ≡ b) ⊎ ((v : V) × (at a' b' ≡ some v))
  next_of_assigned v h a' b' w e = elim (==_cases b b') [
    | inl (same, _) ↦ inl (sym same)
    | inr (_, other) ↦ inr (w, ground (arith, h a' b'))
  ]
