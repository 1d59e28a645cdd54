-- ===== src/Types/Examples.antt =====
-- Runs of the tables of include/hyperliquid/types/RequestTypes.h.
use hyperliquid_sdk_cpp.Common.{◌≡◌, ◌≢◌, ◌↔◌, ok}
use hyperliquid_sdk_cpp.Types.Subscription
use hyperliquid_sdk_cpp.Types.Subscription.{l2_book, unknown}
use hyperliquid_sdk_cpp.Types.Subscription.Laws.{read_iff}
use hyperliquid_sdk_cpp.Types.Endpoint
use hyperliquid_sdk_cpp.Types.Endpoint.{spot_deploy_genesis, spot_deploy_register_spot}
use hyperliquid_sdk_cpp.Types.Endpoint.Laws.{merge_deploys, same_wire_iff}

read_iff_example :
    ((Subscription.string_to_subscription_type "l2Book" ≡ l2_book) × (l2_book ≢ unknown))
    ↔ (Subscription.to_string l2_book ≡ ok "l2Book")
read_iff_example = read_iff "l2Book" l2_book

same_wire_iff_example :
    ((Endpoint.to_path spot_deploy_genesis ≡ Endpoint.to_path spot_deploy_register_spot)
      × (Endpoint.to_string spot_deploy_genesis ≡ Endpoint.to_string spot_deploy_register_spot))
    ↔ (merge_deploys spot_deploy_genesis ≡ merge_deploys spot_deploy_register_spot)
same_wire_iff_example = same_wire_iff spot_deploy_genesis spot_deploy_register_spot
