-- ===== src/Api/NoCost.antt =====
-- What `ws_open`, `ws_close` and `ws_message` of lib.rs do that uses up no nonce: the checks, and
-- the service messages of a client.
use ic_websocket_cdk_rs.Prelude.{ℕ, ◌+◌, refl, Bytes, arith, Option-cases, inl, inr, get, ◌⊎◌, Text}
use ic_websocket_cdk_rs.Types.Messages.{
  WebsocketServiceMessageContent, open_message, ack_message, keep_alive_message, close_message,
}
use ic_websocket_cdk_rs.Env.{Env, Key}
use ic_websocket_cdk_rs.State.{State, Outcome, Key-discrete, ok, err, trap}
use ic_websocket_cdk_rs.State.Relates.{Holds, Preserves-IsPreorder}
use ic_websocket_cdk_rs.State.Steps.{increment_expected_incoming_message_from_client_num_ok}
use ic_websocket_cdk_rs.State.Missing.{increment_expected_incoming_message_from_client_num_err}
use ic_websocket_cdk_rs.State.Reads.{
  get_client_key_from_principal-Relates, check_registered_client_exists-Relates,
}
use ic_websocket_cdk_rs.State.Clients.{
  get_client_key_from_principal, check_registered_client_exists,
  increment_expected_incoming_message_from_client_num,
}
use ic_websocket_cdk_rs.State.Service.{
  handle_keep_alive_client_message, decoded_or_fail, from_candid_bytes, handle_service_content,
  handle_received_service_message,
}
use ic_websocket_cdk_rs.State.Queues.Costs.{
  HasSpare, HasSpare-le, same-HasSpare, Costs, Costs-then, Costs-Preserves, Costs-modify,
  Costs-fail, Costs-pure,
}
use ic_websocket_cdk_rs.Api.{swapped, check_not_registered}

module _ ⦃env : Env⦄ where
  -- The checks, which read the state.
  pub client_key-Costs : (p : env.Principal) → Costs 0 (get_client_key_from_principal p)
  client_key-Costs p =
      Costs-Preserves (get_client_key_from_principal p)
        (λ n. get_client_key_from_principal-Relates (Preserves-IsPreorder (HasSpare n)) p)

  pub exists-Costs : (k : Key) → Costs 0 (check_registered_client_exists k)
  exists-Costs k =
      Costs-Preserves (check_registered_client_exists k)
        (λ n. check_registered_client_exists-Relates (Preserves-IsPreorder (HasSpare n)) k)

  swapped_lem :
      (n : ℕ) (k : Key) (o : Outcome (Unit {0}))
      → Holds (HasSpare n) o
      → Holds (HasSpare n) (swapped k o)
  swapped_lem n k (ok a s) h = h
  swapped_lem n k (err e s) h = h
  swapped_lem n k trap h = tt

  pub check_not_registered-Costs : (k : Key) → Costs 0 (check_not_registered k)
  check_not_registered-Costs k = record {
    at = λ n s spare.
        swapped_lem n k (check_registered_client_exists k s) ((exists-Costs k).at n s spare);
  }

  -- The service messages of a client.
  keep_alive-HasSpare :
      (k : Key) (n : ℕ) (s : State)
      → HasSpare n s
      → HasSpare n (handle_keep_alive_client_message k s)
  unfolding handle_keep_alive_client_message
  keep_alive-HasSpare k n s spare = same-HasSpare n s _ refl refl refl spare

  content-Costs :
      (k : Key) (m : WebsocketServiceMessageContent env.Principal)
      → Costs 0 (handle_service_content k m)
  unfolding handle_service_content
  content-Costs k (open_message j) = Costs-fail 0 _
  content-Costs k (ack_message i) = Costs-fail 0 _
  content-Costs k (keep_alive_message i) = Costs-modify _ (keep_alive-HasSpare k)
  content-Costs k (close_message r) = Costs-fail 0 _

  decoded-Costs :
      (r : WebsocketServiceMessageContent env.Principal ⊎ Text) → Costs 0 (decoded_or_fail r)
  decoded-Costs (inl m) = Costs-pure m
  decoded-Costs (inr e) = Costs-fail 0 _

  pub service-Costs :
      (k : Key) (content : Bytes) → Costs 0 (handle_received_service_message k content)
  unfolding handle_received_service_message
  service-Costs k content =
      Costs-then 0 (from_candid_bytes content) _ (decoded-Costs (env.decode_one content))
        (content-Costs k)

  pub increment_expected-Costs :
      (k : Key) → Costs 0 (increment_expected_incoming_message_from_client_num k)
  increment_expected-Costs k = record {
    at = λ n s spare.
        let left = HasSpare-le n (0 + n) s (omega arith) spare in
        elim (Option-cases (get Key-discrete k s.incoming_message_from_client_num_map)) [
          | inl e ↦ rw (increment_expected_incoming_message_from_client_num_err s k e) left
          | inr (i, e) ↦
              rw (increment_expected_incoming_message_from_client_num_ok s k e)
                (same-HasSpare n s _ refl refl refl left)
        ];
  }
