-- ===== src/Api/Disconnecting.antt =====
-- `close` of lib.rs: the canister closes the connection of a principal.
use ic_websocket_cdk_rs.Prelude.{
  ◌≡◌, ◌≢◌, refl, ◌∙◌, ap, false, none, some, get, is_some, if_pos, if_neg,
}
use ic_websocket_cdk_rs.Types.Messages.{closed_by_application}
use ic_websocket_cdk_rs.Errors.{to_string, client_principal_not_connected}
use ic_websocket_cdk_rs.Env.{Env, Key}
use ic_websocket_cdk_rs.State.{State, Key-discrete, err}
use ic_websocket_cdk_rs.State.Steps.{get_client_key_from_principal_ok}
use ic_websocket_cdk_rs.State.Missing.{get_client_key_from_principal_err}
use ic_websocket_cdk_rs.State.Sending.Frame.{SameClients}
use ic_websocket_cdk_rs.State.Removal.{remove_client, close}
use ic_websocket_cdk_rs.State.Removal.Drop.{drop_client, remove_client-Holds}
use ic_websocket_cdk_rs.State.Removal.NoErrors.{Leaves, Leaves-bind, remove_client-NoError}
use ic_websocket_cdk_rs.State.Registry.{is_registered, current_key}
use ic_websocket_cdk_rs.State.Registry.Changes.{dropped-registered, dropped-current}

module _ ⦃env : Env⦄ where
  -- Only the client `k` is gone.
  pub record IsWithout (k : Key) (s t : State) : Type 0 where
    pub gone : is_registered t k ≡ false
    pub free : current_key t k.client_principal ≡ none
    pub others : (j : Key) → k ≢ j → is_registered t j ≡ is_registered s j

  dropped-IsWithout : (k : Key) (s t : State) → SameClients (drop_client k s) t → IsWithout k s t
  dropped-IsWithout k s t d = record {
    gone = now k ∙ dropped-registered s k k ∙ if_pos (Key-discrete k k) refl _ _;
    free =
        ap (get env.principal_discrete k.client_principal) d.current
        ∙ dropped-current s k k.client_principal
        ∙ if_pos (env.principal_discrete k.client_principal k.client_principal) refl _ _;
    others = λ j n. now j ∙ dropped-registered s k j ∙ if_neg (Key-discrete k j) n _ _;
  }
    where
      now : (j : Key) → is_registered t j ≡ is_registered (drop_client k s) j
      now j = ap (λ m. is_some (get Key-discrete j m)) d.clients

  pub close-IsWithout :
      (s : State) (p : env.Principal)
      → (current_key s p ≡ none → close p s ≡ err (to_string (client_principal_not_connected p)) s)
        × ((k : Key) → current_key s p ≡ some k → Leaves (IsWithout k s) (close p s))
  unfolding close
  close-IsWithout s p = (
    λ e. rw (get_client_key_from_principal_err s p e),
    λ k e. rw (get_client_key_from_principal_ok s p e) (
        Leaves-bind (IsWithout k s) (remove_client k (some closed_by_application) s) _
          (remove_client-NoError k (some closed_by_application) s)
          (remove_client-Holds k (some closed_by_application) s)
          (λ t d. dropped-IsWithout k s t d)),
  )
