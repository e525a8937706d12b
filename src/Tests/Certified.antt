-- ===== src/Tests/Certified.antt =====
-- The queue of a gateway after a connection was opened.
use ic_websocket_cdk_rs.Prelude.{◌≡◌, refl, arith}
use ic_websocket_cdk_rs.State.Queues.Raised.{IsSound}
use ic_websocket_cdk_rs.State.Queues.Spent.{IsLimited}
use ic_websocket_cdk_rs.Canister.Certified.{messages_until, Reachable-IsSound}
use ic_websocket_cdk_rs.Tests.Demo.{demo}
use ic_websocket_cdk_rs.Tests.Reached.{reached, reached-Reachable}

-- Each callback of the demonstration sends at most one message.
demo-IsLimited : IsLimited 1
demo-IsLimited = record {
  on_open = λ f args a. (omega arith, λ r. tt);
  on_message = λ f args a. (omega arith, λ r. tt);
  on_close = λ f args a. tt;
}

reached-messages : messages_until 1 reached-Reachable ≡ 4
unfolding messages_until reached-Reachable
reached-messages = refl

reached_queues_example : IsSound 100 reached
reached_queues_example =
    Reachable-IsSound 1 reached reached-Reachable 100 demo-IsLimited
      (omega (arith, reached-messages))
