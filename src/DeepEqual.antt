-- ===== src/DeepEqual.antt =====
-- reflect.DeepEqual on the data of Models.antt, with the proof that it decides equality.
use free5gc_udr.Base.{
  ◌≡◌, refl, ap, ◌↔◌, Bool, true, false, ◌&&◌, Option, none, some, ◌==◌, ==_iff, ==_refl, arith,
}
use free5gc_udr.Base.Int.{ℤ, ℤ_eq}
use free5gc_udr.Models.{
  Json, null, bool, number, text, other, array, object, Items, nil, cons, Document, end, field,
  Snssai, TrafficInfluData,
}

abbrev bool_eq : Bool → Bool → Bool
bool_eq true true = true
bool_eq false false = true
bool_eq _ _ = false

mutual
  pub json_eq : Json → Json → Bool
  json_eq null null = true
  json_eq (bool a) (bool b) = bool_eq a b
  json_eq (number a) (number b) = ℤ_eq a b
  json_eq (text a) (text b) = a == b
  json_eq (other a) (other b) = a == b
  json_eq (array a) (array b) = items_eq a b
  json_eq (object a) (object b) = document_eq a b
  json_eq _ _ = false

  items_eq : Items → Items → Bool
  items_eq nil nil = true
  items_eq (cons a as') (cons b bs) = json_eq a b && items_eq as' bs
  items_eq _ _ = false

  document_eq : Document → Document → Bool
  document_eq end end = true
  document_eq (field k v d) (field l w e) = k == l && json_eq v w && document_eq d e
  document_eq _ _ = false

and_true : (a b : Bool) → (a && b) ≡ true → (a ≡ true) × (b ≡ true)
and_true true b h = (refl, h)
and_true false b h = cc

pub ℤ_eq_sound : (a b : ℤ) → ℤ_eq a b ≡ true → a ≡ b
ℤ_eq_sound a b h = ground arith

ℤ_eq_refl : (a : ℤ) → ℤ_eq a a ≡ true
ℤ_eq_refl a = ground arith

mutual
  unfolding json_eq items_eq document_eq

  json_eq_sound : (a b : Json) → json_eq a b ≡ true → a ≡ b
  json_eq_sound null null h = refl
  json_eq_sound (bool a) (bool b) h = ground arith
  json_eq_sound (number a) (number b) h = ap number (ℤ_eq_sound a b h)
  json_eq_sound (text a) (text b) h = ap text ((==_iff a b).0 h)
  json_eq_sound (other a) (other b) h = ap other ((==_iff a b).0 h)
  json_eq_sound (array a) (array b) h = ap array (items_eq_sound a b h)
  json_eq_sound (object a) (object b) h = ap object (document_eq_sound a b h)
  json_eq_sound _ _ h = cc

  items_eq_sound : (a b : Items) → items_eq a b ≡ true → a ≡ b
  items_eq_sound nil nil h = refl
  items_eq_sound (cons a s) (cons b t) h =
      let (e, e') = and_true (json_eq a b) (items_eq s t) h in
      cc (json_eq_sound a b e, items_eq_sound s t e')
  items_eq_sound _ _ h = cc

  document_eq_sound : (a b : Document) → document_eq a b ≡ true → a ≡ b
  document_eq_sound end end h = refl
  document_eq_sound (field k v d) (field l w e) h =
      let (p, q) = and_true (k == l && json_eq v w) (document_eq d e) h in
      let (r, s) = and_true (k == l) (json_eq v w) p in
      cc ((==_iff k l).0 r, json_eq_sound v w s, document_eq_sound d e q)
  document_eq_sound _ _ h = cc

mutual
  unfolding json_eq items_eq document_eq

  json_eq_refl : (a : Json) → json_eq a a ≡ true
  json_eq_refl null = refl
  json_eq_refl (bool true) = refl
  json_eq_refl (bool false) = refl
  json_eq_refl (number a) = ℤ_eq_refl a
  json_eq_refl (text a) = ==_refl a
  json_eq_refl (other a) = ==_refl a
  json_eq_refl (array a) = items_eq_refl a
  json_eq_refl (object a) = document_eq_refl a

  items_eq_refl : (a : Items) → items_eq a a ≡ true
  items_eq_refl nil = refl
  items_eq_refl (cons a s) = rw (json_eq_refl a) (items_eq_refl s)

  document_eq_refl : (a : Document) → document_eq a a ≡ true
  document_eq_refl end = refl
  document_eq_refl (field k v d) = rw (==_refl k, json_eq_refl v) (document_eq_refl d)

-- reflect.DeepEqual on values of the same type holds exactly for equal values.
pub json_eq_iff : (a b : Json) → (json_eq a b ≡ true) ↔ (a ≡ b)
json_eq_iff a b = (json_eq_sound a b, λ e. rw (← e) (json_eq_refl a))

-- reflect.DeepEqual on models.Snssai, and on a pointer to one.
abbrev pub snssai_eq : Snssai → Snssai → Bool
snssai_eq a b = ℤ_eq a.sst b.sst && a.sd == b.sd

abbrev snssai_pointer_eq : Option Snssai → Option Snssai → Bool
snssai_pointer_eq none none = true
snssai_pointer_eq (some a) (some b) = snssai_eq a b
snssai_pointer_eq _ _ = false

pub snssai_eq_iff : (a b : Snssai) → (snssai_eq a b ≡ true) ↔ (a ≡ b)
snssai_eq_iff a b = (
  λ h. ground (arith, ℤ_eq_sound a.sst b.sst, ==_iff a.sd b.sd),
  λ e. rw (← e) (rw (ℤ_eq_refl a.sst) (==_refl a.sd)),
)

-- reflect.DeepEqual on models.TrafficInfluData.
unfoldable pub influ_data_eq : TrafficInfluData → TrafficInfluData → Bool
influ_data_eq a b =
    a.dnn == b.dnn
    && snssai_pointer_eq a.snssai b.snssai
    && a.inter_group_id == b.inter_group_id
    && a.supi == b.supi
    && json_eq a.rest b.rest

snssai_pointer_eq_iff : (a b : Option Snssai) → (snssai_pointer_eq a b ≡ true) ↔ (a ≡ b)
snssai_pointer_eq_iff none none = (λ _. refl, λ _. refl)
snssai_pointer_eq_iff none (some b) = (λ h. cc, λ e. cc)
snssai_pointer_eq_iff (some a) none = (λ h. cc, λ e. cc)
snssai_pointer_eq_iff (some a) (some b) =
    (λ h. ap some ((snssai_eq_iff a b).0 h), λ e. (snssai_eq_iff a b).1 (cc))

pub influ_data_eq_iff : (a b : TrafficInfluData) → (influ_data_eq a b ≡ true) ↔ (a ≡ b)
unfolding influ_data_eq
influ_data_eq_iff a b = (
  λ h. ground (
    arith,
    ==_iff a.dnn b.dnn,
    snssai_pointer_eq_iff a.snssai b.snssai,
    ==_iff a.inter_group_id b.inter_group_id,
    ==_iff a.supi b.supi,
    json_eq_iff a.rest b.rest,
  ),
  λ e. rw (← e) (
      ground (
        arith,
        ==_refl a.dnn,
        snssai_pointer_eq_iff a.snssai a.snssai,
        ==_refl a.inter_group_id,
        ==_refl a.supi,
        json_eq_refl a.rest,
      )),
)
