-- ===== src/State/Polling.antt =====
-- state.rs: the messages that a gateway polls; `ws_get_messages` of lib.rs.
pub mod ReadOnly
use ic_websocket_cdk_rs.Prelude.{
  ℕ, zero, suc, ◌+◌, ◌-◌, Bool, true, false, if◌then◌else◌, ltb, Option, none, some, List, [], ◌∷◌,
  Text, text_ltb, length, get_elem?,
}
use ic_websocket_cdk_rs.Types.Messages.{
  CanisterOutputMessage, CanisterOutputCertifiedMessages, CanisterWsGetMessagesArguments,
  MessagesForGatewayRange, empty_certified_messages,
}
use ic_websocket_cdk_rs.Types.Gateway.{RegisteredGateway}
use ic_websocket_cdk_rs.Env.{Env}
use ic_websocket_cdk_rs.State.{State, Exec, Outcome, ok, err, trap, ◌>>=◌, pure, gets, unwrap}
use ic_websocket_cdk_rs.State.Gateways.{get_registered_gateway, is_registered_gateway}
use ic_websocket_cdk_rs.State.Certification.{format_message_for_gateway_key, get_cert_for_range}

-- `partition_point` of the standard library, on a queue whose elements with the property stand
-- before the others.
unfoldable pub partition_point {ℓ} : {A : Type ℓ} → (A → Bool) → List A → ℕ
partition_point p [] = 0
partition_point p (x ∷ xs) = let rest = suc (partition_point p xs) in if p x then rest else 0

module _ ⦃env : Env⦄ where
  -- The end of the range, and whether it is the end of the queue.
  abbrev pub range_end : (queue_len start_index max : ℕ) → MessagesForGatewayRange
  range_end queue_len start_index max =
      if ltb max (queue_len - start_index)
      then record {
        start_index = start_index;
        end_index = start_index + max;
        is_end_of_queue = false;
      }
      else record { start_index = start_index; end_index = queue_len; is_end_of_queue = true }

  -- `unwrap()` of a gateway: a missing one traps.
  abbrev pub queue_of :
      Outcome (RegisteredGateway env.Principal)
      → Outcome (List (CanisterOutputMessage env.Principal))
  queue_of (ok g s) = ok g.messages_queue s
  queue_of (err e s) = trap
  queue_of trap = trap

  unfoldable pub gateway_queue : env.Principal → Exec (List (CanisterOutputMessage env.Principal))
  gateway_queue gp s = queue_of (get_registered_gateway gp s)

  unfoldable pub get_messages_for_gateway_range : env.Principal → ℕ → Exec MessagesForGatewayRange
  unfolding gateway_queue partition_point
  get_messages_for_gateway_range gp nonce = do
    max_number_of_returned_messages ← gets (λ s. s.params.max_number_of_returned_messages)
    messages_queue ← gateway_queue gp
    let queue_len = length messages_queue
    let smallest_key = format_message_for_gateway_key gp nonce
    let start_index = partition_point (λ x. text_ltb x.key smallest_key) messages_queue
    pure (range_end queue_len start_index max_number_of_returned_messages)

  -- The loop over `start_index..end_index`: the count of the indices left, and the next one. An
  -- index out of range traps.
  unfoldable pub collect_messages :
      ℕ
      → ℕ
      → List (CanisterOutputMessage env.Principal)
      → Exec (List (CanisterOutputMessage env.Principal))
  collect_messages zero index messages_queue = pure []
  collect_messages (suc n) index messages_queue = do
    message ← unwrap (get_elem? messages_queue index)
    messages ← collect_messages n (index + 1) messages_queue
    pure (message ∷ messages)

  unfoldable pub get_messages_for_gateway :
      env.Principal → ℕ → ℕ → Exec (List (CanisterOutputMessage env.Principal))
  unfolding gateway_queue collect_messages
  get_messages_for_gateway gp start_index end_index = do
    messages_queue ← gateway_queue gp
    collect_messages (end_index - start_index) start_index messages_queue

  -- `first().unwrap()` and `last().unwrap()` of the messages after the first one.
  abbrev pub last_of :
      CanisterOutputMessage env.Principal
      → List (CanisterOutputMessage env.Principal)
      → CanisterOutputMessage env.Principal
  last_of m [] = m
  last_of m (x ∷ xs) = last_of x xs

  -- No message gives the empty result; others come with their certificate.
  unfoldable pub certified_messages :
      List (CanisterOutputMessage env.Principal)
      → Bool
      → Exec (CanisterOutputCertifiedMessages env.Principal)
  certified_messages [] is_end_of_queue = pure empty_certified_messages
  certified_messages (m ∷ ms) is_end_of_queue = do
    (cert, tree) ← get_cert_for_range m.key (last_of m ms).key
    pure (record { messages = m ∷ ms; cert = cert; tree = tree; is_end_of_queue = is_end_of_queue })

  unfoldable pub get_cert_messages :
      env.Principal → ℕ → Exec (CanisterOutputCertifiedMessages env.Principal)
  unfolding get_messages_for_gateway_range get_messages_for_gateway certified_messages
  get_cert_messages gp nonce = do
    range ← get_messages_for_gateway_range gp nonce
    messages ← get_messages_for_gateway gp range.start_index range.end_index
    certified_messages messages range.is_end_of_queue

  -- lib.rs; `caller` is `msg_caller()`.
  unfoldable pub ws_get_messages :
      env.Principal
      → CanisterWsGetMessagesArguments
      → Exec (CanisterOutputCertifiedMessages env.Principal)
  ws_get_messages caller args s =
      if is_registered_gateway caller s
      then get_cert_messages caller args.nonce s
      else ok empty_certified_messages s
