-- ===== src/Callback/Laws.antt =====
-- Who is told of a change.
use Prim.Native.String.{String}
use free5gc_udr.Base.{
  ◌≡◌, refl, ◌↔◌, ◌⊎◌, inl, inr, ==_cases, List, [], ◌∷◌, Option, none, some, arith, Option-cases,
  ◌∙◌, sym, ap,
}
use free5gc_udr.Models.{
  NotifyItem, SubscriptionDataSubscriptions, TrafficInfluSub, TrafficInfluData,
}
use free5gc_udr.Context.{InfluEntry, pointer, struct}
use free5gc_udr.Matching.Laws.{Listed, BothCovered, check_influence_data_subscription_iff}
use free5gc_udr.Callback.{
  DataChangePost, data_change_post, send_on_data_change_notify, InfluencePost, influence_post,
  send_influence_data_update_notification,
}

-- A request about a change of a UE's data is sent exactly for the subscriptions of that UE: to the
-- callback reference of each, with the original callback reference and the changes.
pub send_on_data_change_notify_iff :
    (ue : String) (items : List NotifyItem) (subs : List SubscriptionDataSubscriptions)
    (p : DataChangePost)
    → Listed p (send_on_data_change_notify ue items subs) ↔ (
        (sub : SubscriptionDataSubscriptions) × Listed sub subs
        × (sub.ue_id ≡ ue)
        × (record {
          url = sub.callback_reference;
          ue_id = ue;
          original_callback_reference = sub.original_callback_reference ∷ [];
          notify_items = items;
        }
            ≡ p))
unfolding send_on_data_change_notify data_change_post
send_on_data_change_notify_iff ue items [] p = (λ h. absurd h, λ h. absurd h.1)
send_on_data_change_notify_iff ue items (x ∷ xs) p =
    let later = send_on_data_change_notify_iff ue items xs p in
    elim (==_cases ue x.ue_id) [
      | inl (mine, e) ↦ rw e (
        λ h. elim h [
          | inl this ↦ (x, inl refl, sym mine, this)
          | inr rest ↦ let (sub, there, same, made) = later.0 rest in (sub, inr there, same, made)
        ],
        λ (sub, there, same, made). elim there [
          | inl this ↦ inl (ap (data_change_post ue items) this ∙ made)
          | inr rest ↦ inr (later.1 (sub, rest, same, made))
        ],
      )
      | inr (other, e) ↦ rw e (
        λ h. let (sub, there, same, made) = later.0 h in (sub, inr there, same, made),
        λ (sub, there, same, made). elim there [
          | inl this ↦ absurd (other (sym same ∙ ap (λ s. s.ue_id) (sym this)))
          | inr rest ↦ later.1 (sub, rest, same, made)
        ],
      )
    ]

-- What one subscription is told: the new data if it matches, else that the data is gone for it, if
-- the data matched before.
abbrev pub Told :
    String
    → Option TrafficInfluData
    → Option TrafficInfluData
    → TrafficInfluSub
    → InfluencePost
    → Type 0
Told res_uri original modified sub p =
    (p.url ≡ sub.notification_uri)
    × (p.res_uri ≡ res_uri)
    × ((BothCovered modified (some sub) × (p.traffic_influ_data ≡ modified))
        ⊎ ((¬ BothCovered modified (some sub))
            × BothCovered original (some sub)
            × (p.traffic_influ_data ≡ none)))

influence_post_iff :
    (res_uri : String) (original modified : Option TrafficInfluData) (sub : TrafficInfluSub)
    (p : InfluencePost)
    → (influence_post res_uri original modified sub ≡ some p) ↔ Told res_uri original modified sub p
unfolding influence_post
influence_post_iff res_uri original modified sub p =
    let new = check_influence_data_subscription_iff modified (some sub) in
    let old = check_influence_data_subscription_iff original (some sub) in
    (λ h. ground (arith, new, old), λ h. ground (arith, new, old))

-- A request about a change of influence data is sent exactly for the stored subscriptions that the
-- new data or the original data match: it carries the new data if that matches, and otherwise none,
-- which tells the removal. Data that matches neither way is told to nobody.
pub send_influence_data_update_notification_iff :
    (res_uri : String) (original modified : Option TrafficInfluData) (stored : List InfluEntry)
    (p : InfluencePost)
    → Listed p (send_influence_data_update_notification res_uri original modified stored) ↔ (
        (sub : TrafficInfluSub) × Listed (pointer sub) stored
        × Told res_uri original modified sub p)
unfolding send_influence_data_update_notification
send_influence_data_update_notification_iff res_uri original modified [] p =
    (λ h. absurd h, λ h. absurd h.1)
send_influence_data_update_notification_iff res_uri original modified (struct x ∷ xs) p =
    let later = send_influence_data_update_notification_iff res_uri original modified xs p in
    (
      λ h. let (sub, there, told) = later.0 h in (sub, inr there, told),
      λ (sub, there, told). elim there [ inl this ↦ cc | inr rest ↦ later.1 (sub, rest, told) ],
    )
send_influence_data_update_notification_iff res_uri original modified (pointer x ∷ xs) p =
    let later = send_influence_data_update_notification_iff res_uri original modified xs p in
    let now = influence_post_iff res_uri original modified x p in
    elim (Option-cases (influence_post res_uri original modified x)) [
      | inl nothing ↦
          rw (send_influence_data_update_notification, nothing)
            (
              λ h. let (sub, there, told) = later.0 h in (sub, inr there, told),
              λ (sub, there, told). elim there [
                | inl this ↦ let made = posted x sub p (pointer_inj x sub this) told in cc
                | inr rest ↦ later.1 (sub, rest, told)
              ],
            )
      | inr (q, post) ↦
          rw (send_influence_data_update_notification, post)
            (
              λ h. elim h [
                | inl this ↦ (x, inl refl, now.0 (post ∙ ap some this))
                | inr rest ↦ let (sub, there, told) = later.0 rest in (sub, inr there, told)
              ],
              λ (sub, there, told). elim there [
                | inl this ↦ let made = posted x sub p (pointer_inj x sub this) told in inl cc
                | inr rest ↦ inr (later.1 (sub, rest, told))
              ],
            )
    ]
  where
    pointer_inj : (a b : TrafficInfluSub) → pointer a ≡ pointer b → a ≡ b
    pointer_inj a b e = cc

    posted :
        (a b : TrafficInfluSub) (p : InfluencePost)
        → a ≡ b
        → Told res_uri original modified b p
        → influence_post res_uri original modified a ≡ some p
    posted a b p e told =
        ap (influence_post res_uri original modified) e
        ∙ (influence_post_iff res_uri original modified b p).1 told
