-- ===== src/Sbi/Answers.antt =====
-- What the handlers of the subscriptions to changes of policy data make of the body of a request.
use Prim.Native.String.{String}
use free5gc_udr.Base.{
  ℕ, suc, ◌+◌, ◌≡◌, inl, inr, List, Option, none, some, arith, Option-cases, entries, lookup,
  lookup-insert_self,
}
use free5gc_udr.Base.Int.{itoa}
use free5gc_udr.Models.{PolicyDataSubscription}
use free5gc_udr.Gin.{answers}
use free5gc_udr.Database.{Result, ok, err, Result-cases}
use free5gc_udr.Notify.{policy_data_subs_to_notify_post_procedure, write_map}
use free5gc_udr.Sbi.{Incoming, Outside, World, on_context}
use free5gc_udr.Sbi.Policies.{
  zero_subscription, text_of, report_unread, report_malformed, report_body,
  handle_policy_data_subs_to_notify_post,
}

-- 1 for an error, and 0 for none.
abbrev pub unread_count : Result String → ℕ
unread_count (ok raw) = 0
unread_count (err e) = 1

abbrev pub error_count : Option String → ℕ
error_count none = 0
error_count (some e) = 1

module _ {Db : Type 0} (o : Outside Db) where
  -- A subscription to changes of policy data is answered once more for each error of the reading and
  -- of the decoding of the body, and whatever the body is, what is stored under the new identifier is
  -- the zero subscription; the table of subscriptions is not nil.
  pub handle_policy_data_subs_to_notify_post_lem :
      (req : Incoming) (w : World Db) (m : List (String × PolicyDataSubscription))
      → w.context.policy_data_subscriptions ≡ some m
      → (lookup (itoa w.context.policy_data_subscription_id_generator) (
            entries
              (handle_policy_data_subs_to_notify_post o req
                w).state.context.policy_data_subscriptions)
          ≡ some zero_subscription)
        × (answers (handle_policy_data_subs_to_notify_post o req w).actions
            ≡ suc (unread_count req.body + error_count (o.decode.by_value (text_of req))))
  unfolding handle_policy_data_subs_to_notify_post report_body report_unread report_malformed
      on_context policy_data_subs_to_notify_post_procedure write_map answers
  handle_policy_data_subs_to_notify_post_lem req w m made =
      let stored =
        lookup-insert_self (itoa w.context.policy_data_subscription_id_generator) zero_subscription
          m in
      elim (Result-cases req.body) [
        | inl (e, unread) ↦ elim (Option-cases (o.decode.by_value req.partial_body)) [
          | inl fine ↦
              (ground (arith, made, unread, fine, stored), ground (arith, made, unread, fine))
          | inr (f, bad) ↦
              (ground (arith, made, unread, bad, stored), ground (arith, made, unread, bad))
        ]
        | inr (raw, read) ↦ elim (Option-cases (o.decode.by_value raw)) [
          | inl fine ↦ (ground (arith, made, read, fine, stored), ground (arith, made, read, fine))
          | inr (f, bad) ↦
              (ground (arith, made, read, bad, stored), ground (arith, made, read, bad))
        ]
      ]
