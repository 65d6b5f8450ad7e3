-- ===== src/Matching.antt =====
-- util.Contain (internal/util/list.go) and the matching of influence data with subscriptions:
-- checkInfluenceDataSubscription of internal/sbi/processor/callback.go.
pub mod Laws
use Prim.Native.String.{String}
use free5gc_udr.Base.{
  Bool, true, false, not, ◌&&◌, ◌||◌, List, [], ◌∷◌, Option, none, some, ◌==◌, if◌then◌else◌,
}
use free5gc_udr.DeepEqual.{snssai_eq}
use free5gc_udr.Models.{Snssai, TrafficInfluSub, TrafficInfluData}

-- The loop of util.Contain, with reflect.DeepEqual on the elements as the test.
unfoldable pub contain : {A : Type 0} → (A → A → Bool) → A → List A → Bool
contain eq target [] = false
contain eq target (x ∷ xs) = if eq x target then true else contain eq target xs

abbrev pub contain_text : String → List String → Bool
contain_text = contain ◌==◌

abbrev pub contain_snssai : Snssai → List Snssai → Bool
contain_snssai = contain snssai_eq

-- `data.Snssai != nil && !util.Contain(*data.Snssai, sub.Snssais)`
unfoldable pub snssai_missing : Option Snssai → List Snssai → Bool
snssai_missing none listed = false
snssai_missing (some s) listed = not (contain_snssai s listed)

-- `x != "" && !util.Contain(x, listed)`
abbrev pub text_missing : String → List String → Bool
text_missing x listed = not (x == "") && not (contain_text x listed)

check_fields : TrafficInfluData → TrafficInfluSub → Bool
check_fields d sub =
    if text_missing d.dnn sub.dnns
    then false
    else if snssai_missing d.snssai sub.snssais
    then false
    else if not (d.inter_group_id == "AnyUE")
    then (if text_missing d.inter_group_id sub.internal_group_ids
        then false
        else if text_missing d.supi sub.supis
        then false
        else true)
    else true

-- `none` is a nil pointer.
unfoldable pub check_influence_data_subscription :
    Option TrafficInfluData → Option TrafficInfluSub → Bool
unfolding check_fields snssai_missing
check_influence_data_subscription none sub = false
check_influence_data_subscription (some d) none = false
check_influence_data_subscription (some d) (some sub) = check_fields d sub
