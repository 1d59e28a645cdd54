-- ===== src/Websocket/Posts/Typed.antt =====
-- src/websocket/PostResponseDispatch.cpp: the requests for information whose answers are typed.
use hyperliquid_sdk_cpp.Common.{Bool, true, false, not, ◌≡◌, refl}
use hyperliquid_sdk_cpp.Messages.Info.{
  InfoRequest, spot_meta, recent_trades, user_funding, user_non_funding_ledger_updates,
  funding_history, user_borrow_lend_interest, liquidatable, endpoint_of,
}
use hyperliquid_sdk_cpp.Websocket.Posts.{has_typed_response}

-- The methods of `WebsocketApi` that the switch was not extended for.
unfoldable pub is_dropped : InfoRequest → Bool
is_dropped (recent_trades _) = true
is_dropped (user_funding _ _ _) = true
is_dropped (user_non_funding_ledger_updates _ _ _) = true
is_dropped (funding_history _ _ _) = true
is_dropped (user_borrow_lend_interest _ _ _) = true
is_dropped liquidatable = true
is_dropped _ = false

-- Over the WebSocket the answer to a request for information has a typed callback, but for six of
-- the methods: `recentTrades`, `userFunding`, `userNonFundingLedgerUpdates`, `fundingHistory`,
-- `userBorrowLendInterest` and `liquidatable`.
pub has_typed_response-endpoint_of :
    (request : InfoRequest) → has_typed_response (endpoint_of request) ≡ not (is_dropped request)
unfolding has_typed_response endpoint_of is_dropped
has_typed_response-endpoint_of spot_meta = refl
has_typed_response-endpoint_of _ = refl
