-- ===== src/Params.antt =====
-- types.rs: `WsHandlers` and `WsInitParams`. `none` as a result is `custom_trap!`.
use ic_websocket_cdk_rs.Prelude.{ℕ, Option, none, some, leb, if◌then◌else◌}
use ic_websocket_cdk_rs.Constants.{
  default_max_number_of_returned_messages, default_send_ack_interval_ms,
  client_keep_alive_timeout_ms,
}
use ic_websocket_cdk_rs.Env.{Env}

pub record WsHandlers ⦃env : Env⦄ : Type 0 where
  pub on_open : Option env.OnOpenCallback
  pub on_message : Option env.OnMessageCallback
  pub on_close : Option env.OnCloseCallback

pub record WsInitParams ⦃env : Env⦄ : Type 0 where
  pub handlers : WsHandlers
  pub max_number_of_returned_messages : ℕ
  pub send_ack_interval_ms : ℕ

module _ ⦃env : Env⦄ where
  abbrev pub default_handlers : WsHandlers
  default_handlers = record { on_open = none; on_message = none; on_close = none }

  unfoldable pub default_params : WsInitParams
  default_params = record {
    handlers = default_handlers;
    max_number_of_returned_messages = default_max_number_of_returned_messages;
    send_ack_interval_ms = default_send_ack_interval_ms;
  }

  unfoldable pub new_params : WsHandlers → WsInitParams
  unfolding default_params
  new_params handlers = record default_params { handlers = handlers }

  abbrev pub get_handlers : WsInitParams → WsHandlers
  get_handlers p = p.handlers

  -- `check_validity` traps on an invalid interval.
  unfoldable pub check_validity : WsInitParams → Option (Unit {0})
  check_validity p =
      if leb p.send_ack_interval_ms client_keep_alive_timeout_ms then none else some tt

  unfoldable pub with_max_number_of_returned_messages : ℕ → WsInitParams → WsInitParams
  with_max_number_of_returned_messages n p = record p { max_number_of_returned_messages = n }

  -- The parameters, if their check does not trap.
  abbrev pub if_valid : Option (Unit {0}) → WsInitParams → Option WsInitParams
  if_valid none p = none
  if_valid (some _) p = some p

  unfoldable pub with_send_ack_interval_ms : ℕ → WsInitParams → Option WsInitParams
  unfolding check_validity
  with_send_ack_interval_ms n p =
      let q = record p { send_ack_interval_ms = n } in if_valid (check_validity q) q
