-- ===== src/State/Certification.antt =====
-- state.rs: the message keys, and the tree whose root hash is certified.
pub mod Keys
use ic_websocket_cdk_rs.Prelude.{
  ℕ, Option, none, some, List, [], ◌∷◌, ◌++◌, Bytes, Text, codes, get, update,
}
use ic_websocket_cdk_rs.Constants.{label_websocket, messages_to_delete_count}
use ic_websocket_cdk_rs.Decimal.{u64_to_string, pad_zeros}
use ic_websocket_cdk_rs.Types.Gateway.{delete_old_messages}
use ic_websocket_cdk_rs.Env.{Env}
use ic_websocket_cdk_rs.Errors.{to_string, gateway_not_registered}
use ic_websocket_cdk_rs.State.{
  get_current_time, get_params, State, Exec, ok, err, trap, ◌>>=◌, unwrap, pure,
}

module _ ⦃env : Env⦄ where
  unfoldable pub format_message_for_gateway_key : env.Principal → ℕ → Text
  format_message_for_gateway_key gp nonce =
      env.to_text gp ++ (codes "_" ++ pad_zeros 20 (u64_to_string nonce))

  -- `certified_data_set` of the labelled root hash.
  unfoldable pub certify : State → State
  certify s = record s {
    certified_data = env.labeled_hash label_websocket (env.root_hash s.cert_tree);
  }

  unfoldable pub put_cert_for_message : Text → Bytes → State → State
  unfolding certify
  put_cert_for_message key value s =
      certify (record s { cert_tree = env.tree_insert key (env.sha256 value) s.cert_tree })

  unfoldable pub delete_keys : List Text → env.RbTree → env.RbTree
  delete_keys [] t = t
  delete_keys (k ∷ ks) t = delete_keys ks (env.tree_delete k t)

  unfoldable pub delete_keys_from_cert_tree : List Text → State → State
  unfolding delete_keys certify
  delete_keys_from_cert_tree ks s = certify (record s { cert_tree = delete_keys ks s.cert_tree })

  -- The panic inside `delete_old_messages` traps.
  unfoldable pub delete_old_messages_for_gateway : env.Principal → Exec (Unit {0})
  delete_old_messages_for_gateway gp s =
      elim (get env.principal_discrete gp s.registered_gateways) [
        | none ↦ err (to_string (gateway_not_registered gp)) s
        | some g ↦
            elim (delete_old_messages g messages_to_delete_count (get_params s).send_ack_interval_ms
              (get_current_time s)) [
                | none ↦ trap
                | some (g', deleted_messages_keys) ↦ ok tt (
                    delete_keys_from_cert_tree deleted_messages_keys (record s {
                      registered_gateways =
                          update env.principal_discrete gp (λ _. g') s.registered_gateways;
                    }))
              ]
      ]

  -- The certificate and the serialized witness for the keys from `first` to `last`.
  unfoldable pub get_cert_for_range : Text → Text → Exec (Bytes × Bytes)
  get_cert_for_range first last = do
    s ← λ s. ok s s
    bytes ←
        unwrap (
          env.serialize_tree (env.labeled label_websocket (env.value_range first last s.cert_tree)))
    certificate ← unwrap (env.data_certificate s.certified_data)
    pure (certificate, bytes)
