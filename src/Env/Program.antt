-- ===== src/Env/Program.antt =====
-- A callback of the canister, as a program that calls the library and reads the results: `none` is
-- `Ok(())`, `some e` is `Err(e)`. It ends with a new state of the canister, or traps.
use ic_websocket_cdk_rs.Prelude.{ℕ, Option, Bytes, Text}

-- types.rs forbids the call of `close` in `on_close`.
pub data OnCloseProgram (P App : Type 0) : Type 0 where
  finish : App → OnCloseProgram P App
  abort : OnCloseProgram P App
  send_then : P → Bytes → (Option Text → OnCloseProgram P App) → OnCloseProgram P App

pub data CallbackProgram (P App : Type 0) : Type 0 where
  finish : App → CallbackProgram P App
  abort : CallbackProgram P App
  send_then : P → Bytes → (Option Text → CallbackProgram P App) → CallbackProgram P App
  close_then : P → (Option Text → CallbackProgram P App) → CallbackProgram P App

-- The closures that timers.rs hands to `set_timer_interval` and `set_timer`, with their interval or
-- delay in nanoseconds.
pub data TimerTask : Type 0 where
  send_ack_every : ℕ → TimerTask
  check_keep_alive_after : ℕ → TimerTask
