-- ===== src/State/Registry/Removed.antt =====
-- `remove_clients` of state.rs: who is registered afterwards.
use ic_websocket_cdk_rs.Prelude.{
  ◌≡◌, refl, ◌∙◌, ap, true, false, Option, List, [], ◌∷◌, arith, get, is_some, ite, if◌then◌else◌,
}
use ic_websocket_cdk_rs.Types.Messages.{CloseMessageReason}
use ic_websocket_cdk_rs.Env.{Env, Key}
use ic_websocket_cdk_rs.State.{State, Key-discrete}
use ic_websocket_cdk_rs.State.Removal.{remove_client, remove_clients}
use ic_websocket_cdk_rs.State.Removal.Drop.{drop_client, remove_client-Holds}
use ic_websocket_cdk_rs.State.Removal.NoErrors.{
  remove_client-NoError, Leaves, Leaves-map, Leaves-bind,
}
use ic_websocket_cdk_rs.State.Sending.Frame.{SameClients}
use ic_websocket_cdk_rs.State.Registry.{is_registered, set_contains}
use ic_websocket_cdk_rs.State.Registry.Changes.{dropped-registered}

module _ ⦃env : Env⦄ where
  set_contains-cons :
      (j k : Key) (ks : List Key)
      → set_contains j (k ∷ ks) ≡ ite (Key-discrete k j) true (set_contains j ks)
  unfolding set_contains
  set_contains-cons j k ks = refl

  after_first :
      (s t : State) (k : Key) (ks : List Key) (j : Key)
      → SameClients (drop_client k s) t
      → (if set_contains j ks then false else is_registered t j)
        ≡ (if set_contains j (k ∷ ks) then false else is_registered s j)
  after_first s t k ks j h =
      let same : is_registered t j ≡ is_registered (drop_client k s) j =
        ap (λ m. is_some (get Key-discrete j m)) h.clients in
      rw (same, dropped-registered s k j, set_contains-cons j k ks) (ground arith)

  -- remove_clients has no error, and unless it traps, the clients that are registered are those of
  -- before that are not in the list.
  pub remove_clients-registered :
      (ks : List Key) (reason : Option CloseMessageReason) (s : State)
      → Leaves
          (λ t.
            (j : Key)
            → is_registered t j ≡ (if set_contains j ks then false else is_registered s j))
          (remove_clients ks reason s)
  unfolding remove_clients set_contains
  remove_clients-registered [] reason s = λ j. refl
  remove_clients-registered (k ∷ ks) reason s =
      Leaves-bind _ (remove_client k reason s) _ (remove_client-NoError k reason s)
        (remove_client-Holds k reason s)
        (λ t h.
          Leaves-map _ (remove_clients ks reason t) (λ u e j. e j ∙ after_first s t k ks j h)
            (remove_clients-registered ks reason t))
