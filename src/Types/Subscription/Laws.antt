-- ===== src/Types/Subscription/Laws.antt =====
-- Wire names of the subscription channels: printing and reading agree.
use text.Mathlib.Text.{◌==◌ as str_eq}
use text.Mathlib.TextEquality.{eq_iff}
use hyperliquid_sdk_cpp.Common.{
  String, ◌≡◌, refl, sym, ◌∙◌, ◌≢◌, ◌↔◌, ◌⊎◌, inl, inr, ok, arith, Bool-cases, if◌then◌else◌,
}
use hyperliquid_sdk_cpp.Types.Subscription.{
  SubscriptionType, l2_book, bbo, trades, candle, all_mids, notification, web_data3, twap_states,
  clearing_house_state, open_orders, order_updates, user_events, user_fills, user_fundings,
  user_non_funding_ledger_updates, active_asset_ctx, active_asset_data, user_twap_slice_fills,
  user_twap_history, spot_state, all_dexs_clearinghouse_state, all_dexs_asset_ctxs, fast_asset_ctxs,
  outcome_meta_updates, unknown, to_string, string_to_subscription_type,
}

read_back :
    (t : SubscriptionType)
    → t ≢ unknown
    → (s : String) × (to_string t ≡ ok s) × (string_to_subscription_type s ≡ t)
unfolding to_string string_to_subscription_type
read_back l2_book h = ("l2Book", refl, refl)
read_back unknown h = absurd (h refl)
read_back _ h = (_, refl, refl)

print-ne-unknown : (t : SubscriptionType) {s : String} → to_string t ≡ ok s → t ≢ unknown
unfolding to_string
print-ne-unknown t h = ground arith

print_read :
    (t : SubscriptionType) (s : String) → to_string t ≡ ok s → string_to_subscription_type s ≡ t
print_read t s h =
    let (s', printed, r) = read_back t (print-ne-unknown t h) in let same : s ≡ s' = cc in rw same r

-- Either the text was refused, or it is the wire name of the result.
abbrev IsReading : String → SubscriptionType → Type 0
IsReading s t = (t ≡ unknown) ⊎ (to_string t ≡ ok s)

matched :
    (s k : String) (c : SubscriptionType) {later : SubscriptionType} (e : to_string c ≡ ok k)
    → IsReading s later
    → IsReading s (if str_eq s k then c else later)
matched s k c e h = elim (Bool-cases (str_eq s k)) [
  | inl same ↦ rw same (inr (rw ((eq_iff s k).0 same) e))
  | inr other ↦ rw other h
]

read_IsReading : (s : String) → IsReading s (string_to_subscription_type s)
unfolding to_string string_to_subscription_type
read_IsReading s = matched s "l2Book" l2_book refl (
    matched s "bbo" bbo refl (
      matched s "trades" trades refl (
        matched s "candle" candle refl (
          matched s "allMids" all_mids refl (
            matched s "notification" notification refl (
              matched s "webData3" web_data3 refl (
                matched s "twapStates" twap_states refl (
                  matched s "clearinghouseState" clearing_house_state refl (
                    matched s "openOrders" open_orders refl (
                      matched s "orderUpdates" order_updates refl (
                        matched s "userEvents" user_events refl (
                          matched s "userFills" user_fills refl (
                            matched s "userFundings" user_fundings refl (
                              matched s "userNonFundingLedgerUpdates"
                                user_non_funding_ledger_updates refl
                                (matched s "activeAssetCtx" active_asset_ctx refl (
                                  matched s "activeAssetData" active_asset_data refl (
                                    matched s "userTwapSliceFills" user_twap_slice_fills refl (
                                      matched s "userTwapHistory" user_twap_history refl (
                                        matched s "spotState" spot_state refl (
                                          matched s "allDexsClearinghouseState"
                                            all_dexs_clearinghouse_state refl
                                            (matched s "allDexsAssetCtxs" all_dexs_asset_ctxs refl (
                                              matched s "fastAssetCtxs" fast_asset_ctxs refl (
                                                matched s "outcomeMetaUpdates" outcome_meta_updates
                                                  refl (inl refl))))))))))))))))))))))))

-- A text is read as a channel exactly when it is that channel's wire name; every other text is read
-- as `unknown`, which has no wire name.
pub read_iff :
    (s : String) (t : SubscriptionType)
    → ((string_to_subscription_type s ≡ t) × (t ≢ unknown)) ↔ (to_string t ≡ ok s)
read_iff s t = (
  λ h. elim (read_IsReading s) [
    | inl refused ↦ absurd (h.1 (sym h.0 ∙ refused))
    | inr printed ↦ rw (← h.0) printed
  ],
  λ e. (print_read t s e, print-ne-unknown t e),
)
