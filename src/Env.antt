-- ===== src/Env.antt =====
-- What the library takes from other crates and from the Internet Computer: candid, serde_cbor,
-- sha2, ic-certification, ic-cdk, and the canister that uses the library.
pub mod Program
use ic_websocket_cdk_rs.Prelude.{ℕ, ◌≡◌, ◌≢◌, ◌⊎◌, Option, none, some, List, Perm, Bytes, Text}
use ic_websocket_cdk_rs.Types.Messages.{
  ClientKey, WebsocketMessage, WebsocketServiceMessageContent, OnOpenCallbackArgs,
  OnMessageCallbackArgs, OnCloseCallbackArgs,
}
use Program.{OnCloseProgram, CallbackProgram, TimerTask}

pub record Env : Type 1 where
  -- candid::Principal, with `Principal::anonymous()` and its `Display`. The textual form
  -- determines the principal.
  pub Principal : Type 0
  pub principal_discrete : Discrete Principal
  pub anonymous : Principal
  pub to_text : Principal → Text
  pub to_text-injective : (p q : Principal) → to_text p ≡ to_text q → p ≡ q
  -- candid: `encode_one` may fail, and `decode_one` gives the text of its error.
  pub encode_one : WebsocketServiceMessageContent Principal → Option Bytes
  pub decode_one : Bytes → WebsocketServiceMessageContent Principal ⊎ Text
  -- serde_cbor: the self-describing tag, and the message after it; the right is an error's text.
  pub self_describe : Bytes ⊎ Text
  pub serialize_message : WebsocketMessage Principal → Bytes ⊎ Text
  -- sha2
  pub sha256 : Bytes → Bytes
  -- ic-certification: a map from texts to hashes, whose root hash is certified.
  pub RbTree : Type 0
  pub tree_new : RbTree
  pub tree_get : Text → RbTree → Option Bytes
  pub tree_insert : Text → Bytes → RbTree → RbTree
  pub tree_delete : Text → RbTree → RbTree
  pub root_hash : RbTree → Bytes
  pub labeled_hash : Bytes → Bytes → Bytes
  pub get-new : (k : Text) → tree_get k tree_new ≡ none
  pub get-insert_self :
      (k : Text) (v : Bytes) (t : RbTree) → tree_get k (tree_insert k v t) ≡ some v
  pub get-insert_ne :
      (k j : Text) (v : Bytes) (t : RbTree) → k ≢ j → tree_get j (tree_insert k v t) ≡ tree_get j t
  pub get-delete_self : (k : Text) (t : RbTree) → tree_get k (tree_delete k t) ≡ none
  pub get-delete_ne :
      (k j : Text) (t : RbTree) → k ≢ j → tree_get j (tree_delete k t) ≡ tree_get j t
  -- Its witnesses, and their CBOR form.
  pub HashTree : Type 0
  pub value_range : Text → Text → RbTree → HashTree
  pub labeled : Bytes → HashTree → HashTree
  pub serialize_tree : HashTree → Option Bytes
  -- ic-cdk: the certificate of the certified data, there in a query only.
  pub data_certificate : Bytes → Option Bytes
  -- The order in which a hash map or a hash set is visited.
  pub hash_order : {A : Type 0} → List A → List A
  pub hash_order-perm : {A : Type 0} (xs : List A) → Perm (hash_order xs) xs
  -- ic-cdk-timers: setting a timer gives a fresh id, under which its task is found.
  pub TimerId : Type 0
  pub timer_id_discrete : Discrete TimerId
  pub Timers : Type 0
  pub timer_task : TimerId → Timers → Option TimerTask
  pub set_timer : TimerTask → Timers → TimerId × Timers
  pub clear_timer : TimerId → Timers → Timers
  pub set_timer-fresh : (t : TimerTask) (ts : Timers) → timer_task (set_timer t ts).0 ts ≡ none
  pub set_timer_self :
      (t : TimerTask) (ts : Timers) → timer_task (set_timer t ts).0 (set_timer t ts).1 ≡ some t
  pub set_timer_ne :
      (t : TimerTask) (ts : Timers) (i : TimerId)
      → (set_timer t ts).0 ≢ i
      → timer_task i (set_timer t ts).1 ≡ timer_task i ts
  pub clear_timer_self : (i : TimerId) (ts : Timers) → timer_task i (clear_timer i ts) ≡ none
  pub clear_timer_ne :
      (i j : TimerId) (ts : Timers) → i ≢ j → timer_task j (clear_timer i ts) ≡ timer_task j ts
  -- The canister: its own state, and the functions that it installs as callbacks.
  pub App : Type 0
  pub OnOpenCallback : Type 0
  pub OnMessageCallback : Type 0
  pub OnCloseCallback : Type 0
  pub on_open_program :
      OnOpenCallback → OnOpenCallbackArgs Principal → App → CallbackProgram Principal App
  pub on_message_program :
      OnMessageCallback → OnMessageCallbackArgs Principal → App → CallbackProgram Principal App
  pub on_close_program :
      OnCloseCallback → OnCloseCallbackArgs Principal → App → OnCloseProgram Principal App

abbrev pub Key : ⦃env : Env⦄ → Type 0
Key ⦃env⦄ = ClientKey env.Principal
