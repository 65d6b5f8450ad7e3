-- ===== src/Matching/Laws.antt =====
-- When influence data matches a subscription.
use Prim.Native.String.{String}
use free5gc_udr.Base.{
  ◌≡◌, refl, ◌↔◌, ◌⊎◌, ==_iff, Bool, true, false, List, [], ◌∷◌, Option, none, some, arith, ◌==◌,
}
use free5gc_udr.DeepEqual.{snssai_eq, snssai_eq_iff}
use free5gc_udr.Models.{Snssai, TrafficInfluSub, TrafficInfluData}
use free5gc_udr.Matching.{
  contain, check_influence_data_subscription, check_fields, text_missing, snssai_missing,
}

-- Membership in a list.
abbrev pub Listed : {A : Type 0} → A → List A → Type 0
Listed x [] = ⊥
Listed x (y ∷ ys) = (y ≡ x) ⊎ Listed x ys

contain_iff :
    {A : Type 0} (eq : A → A → Bool)
    → ((a b : A) → (eq a b ≡ true) ↔ (a ≡ b))
    → (x : A) (xs : List A) → (contain eq x xs ≡ true) ↔ Listed x xs
unfolding contain
contain_iff eq eq_iff x [] = (λ h. cc, λ h. absurd h)
contain_iff eq eq_iff x (y ∷ ys) =
    let later = contain_iff eq eq_iff x ys in
    let now = eq_iff y x in (λ h. ground (arith, later, now), λ h. ground (arith, later, now))

-- A field that is not set asks for nothing.
abbrev pub Allows : List String → String → Type 0
Allows listed x = (x ≡ "") ⊎ Listed x listed

abbrev pub AllowsSnssai : List Snssai → Option Snssai → Type 0
AllowsSnssai listed none = Unit {0}
AllowsSnssai listed (some s) = Listed s listed

-- The condition in words: what the data names, the subscription lists; the group `AnyUE` stands for
-- every group and every SUPI.
abbrev pub Covers : TrafficInfluSub → TrafficInfluData → Type 0
Covers sub d =
    Allows sub.dnns d.dnn
    × AllowsSnssai sub.snssais d.snssai
    × ((d.inter_group_id ≡ "AnyUE")
        ⊎ (Allows sub.internal_group_ids d.inter_group_id × Allows sub.supis d.supi))

abbrev pub BothCovered : Option TrafficInfluData → Option TrafficInfluSub → Type 0
BothCovered none sub = ⊥
BothCovered (some d) none = ⊥
BothCovered (some d) (some sub) = Covers sub d

text_missing_iff :
    (x : String) (listed : List String) → (text_missing x listed ≡ false) ↔ Allows listed x
text_missing_iff x listed =
    let e = ==_iff x "" in
    let l = contain_iff ◌==◌ ==_iff x listed in
    (λ h. ground (arith, e, l), λ h. ground (arith, e, l))

snssai_missing_iff :
    (s : Option Snssai) (listed : List Snssai)
    → (snssai_missing s listed ≡ false) ↔ AllowsSnssai listed s
unfolding snssai_missing
snssai_missing_iff none listed = (λ _. tt, λ _. refl)
snssai_missing_iff (some s) listed =
    let l = contain_iff snssai_eq snssai_eq_iff s listed in
    (λ h. ground (arith, l), λ h. ground (arith, l))

check_fields_iff :
    (d : TrafficInfluData) (sub : TrafficInfluSub) → (check_fields d sub ≡ true) ↔ Covers sub d
unfolding check_fields
check_fields_iff d sub =
    let a = text_missing_iff d.dnn sub.dnns in
    let b = snssai_missing_iff d.snssai sub.snssais in
    let g = ==_iff d.inter_group_id "AnyUE" in
    let i = text_missing_iff d.inter_group_id sub.internal_group_ids in
    let u = text_missing_iff d.supi sub.supis in
    (λ h. ground (arith, a, b, g, i, u), λ h. ground (arith, a, b, g, i, u))

-- Influence data matches a subscription exactly if both are there and the subscription covers it:
-- the DNN, the S-NSSAI, the group and the SUPI that the data names are listed, where the group AnyUE
-- frees the group and the SUPI from the test.
pub check_influence_data_subscription_iff :
    (d : Option TrafficInfluData) (sub : Option TrafficInfluSub)
    → (check_influence_data_subscription d sub ≡ true) ↔ BothCovered d sub
unfolding check_influence_data_subscription
check_influence_data_subscription_iff none sub = (λ h. cc, λ h. absurd h)
check_influence_data_subscription_iff (some d) none = (λ h. cc, λ h. absurd h)
check_influence_data_subscription_iff (some d) (some sub) = check_fields_iff d sub
