-- ===== src/Types/Gateway.antt =====
-- types.rs: `RegisteredGateway` with its message queue, and `RegisteredClient`. The methods that
-- read the clock take the time, in nanoseconds, as an argument.
pub mod Expiry
use ic_websocket_cdk_rs.Prelude.{
  ℕ, zero, suc, ◌-◌, Bool, true, false, Option, none, some, List, [], ◌∷◌, ◌++◌, Text, ltb,
  if◌then◌else◌, add64, sub64, from_nanos, from_millis, ◌==◌,
}
use ic_websocket_cdk_rs.Constants.{initial_outgoing_message_nonce}
use ic_websocket_cdk_rs.Types.Messages.{CanisterOutputMessage}

pub record MessageToDelete : Type 0 where
  pub timestamp : ℕ

pub record RegisteredGateway (P : Type 0) : Type 0 where
  pub messages_queue : List (CanisterOutputMessage P)
  pub messages_to_delete : List MessageToDelete
  pub outgoing_message_nonce : ℕ
  pub connected_clients_count : ℕ

pub record RegisteredClient (P : Type 0) : Type 0 where
  pub last_keep_alive_timestamp : ℕ
  pub gateway_principal : P

-- The age test of `delete_old_messages`.
unfoldable pub is_older : ℕ → ℕ → ℕ → Bool
is_older time message_max_age_ms timestamp =
    ltb (from_millis message_max_age_ms) (from_nanos (sub64 time timestamp))

module _ {P : Type 0} where
  unfoldable pub new_gateway : RegisteredGateway P
  new_gateway = record {
    messages_queue = [];
    messages_to_delete = [];
    outgoing_message_nonce = initial_outgoing_message_nonce;
    connected_clients_count = 0;
  }

  unfoldable pub increment_nonce : RegisteredGateway P → RegisteredGateway P
  increment_nonce g = record g { outgoing_message_nonce = add64 g.outgoing_message_nonce 1 }

  unfoldable pub increment_clients_count : RegisteredGateway P → RegisteredGateway P
  increment_clients_count g = record g {
    connected_clients_count = add64 g.connected_clients_count 1;
  }

  -- `saturating_sub(1)`; the new value is read from the field.
  unfoldable pub decrement_clients_count : RegisteredGateway P → RegisteredGateway P
  decrement_clients_count g = record g { connected_clients_count = g.connected_clients_count - 1 }

  unfoldable pub add_message_to_queue :
      RegisteredGateway P → CanisterOutputMessage P → ℕ → RegisteredGateway P
  add_message_to_queue g message message_timestamp = record g {
    messages_queue = g.messages_queue ++ message ∷ [];
    messages_to_delete = g.messages_to_delete ++ record { timestamp = message_timestamp } ∷ [];
  }

  -- The loop of `delete_old_messages` over the rounds left, the two queues and the keys so far.
  -- `none` is the panic of `unwrap` on an empty messages queue.
  unfoldable pub delete_loop :
      (rounds time message_max_age_ms : ℕ)
      → List (CanisterOutputMessage P)
      → List MessageToDelete
      → List Text
      → Option (List (CanisterOutputMessage P) × List MessageToDelete × List Text)
  delete_loop zero time age queue to_delete keys = some (queue, to_delete, keys)
  delete_loop (suc n) time age queue [] keys = some (queue, [], keys)
  delete_loop (suc n) time age [] (m ∷ ms) keys =
      if is_older time age m.timestamp then none else some ([], m ∷ ms, keys)
  delete_loop (suc n) time age (x ∷ xs) (m ∷ ms) keys =
      let rest = delete_loop n time age xs ms (keys ++ x.key ∷ []) in
      if is_older time age m.timestamp then rest else some (x ∷ xs, m ∷ ms, keys)

  -- What the loop leaves, put back into the gateway.
  abbrev put_queues :
      RegisteredGateway P
      → Option (List (CanisterOutputMessage P) × List MessageToDelete × List Text)
      → Option (RegisteredGateway P × List Text)
  put_queues g none = none
  put_queues g (some (queue, to_delete, keys)) =
      some (record g { messages_queue = queue; messages_to_delete = to_delete }, keys)

  unfoldable pub delete_old_messages :
      RegisteredGateway P → ℕ → ℕ → ℕ → Option (RegisteredGateway P × List Text)
  delete_old_messages g n message_max_age_ms time =
      put_queues g (delete_loop n time message_max_age_ms g.messages_queue g.messages_to_delete [])

  -- `RegisteredClient::new`, at the current time.
  unfoldable pub new_client : P → ℕ → RegisteredClient P
  new_client gateway_principal time = record {
    last_keep_alive_timestamp = time;
    gateway_principal = gateway_principal;
  }

  abbrev pub get_last_keep_alive_timestamp : RegisteredClient P → ℕ
  get_last_keep_alive_timestamp c = c.last_keep_alive_timestamp

  unfoldable pub update_last_keep_alive_timestamp : ℕ → RegisteredClient P → RegisteredClient P
  update_last_keep_alive_timestamp time c = record c { last_keep_alive_timestamp = time }
