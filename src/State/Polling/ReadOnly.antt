-- ===== src/State/Polling/ReadOnly.antt =====
-- `ws_get_messages` of lib.rs is a query: it reads the state only.
use ic_websocket_cdk_rs.Prelude.{
  ℕ, zero, suc, ◌+◌, ◌≡◌, refl, ◌∙◌, Bool, none, List, [], ◌∷◌, get, get_elem?, Bool-cases, inl,
  inr, Text,
}
use ic_websocket_cdk_rs.Constants.{label_websocket}
use ic_websocket_cdk_rs.Types.Messages.{
  CanisterOutputMessage, CanisterWsGetMessagesArguments, empty_certified_messages,
}
use ic_websocket_cdk_rs.Types.Gateway.{RegisteredGateway}
use ic_websocket_cdk_rs.Env.{Env}
use ic_websocket_cdk_rs.State.{State, Outcome, ok, err, trap, unwrap, gets}
use ic_websocket_cdk_rs.State.Relates.{
  Holds, IsPreorder, Relates, Relates-bind, Relates-pure, Relates-gets, Relates-unwrap,
}
use ic_websocket_cdk_rs.State.Reads.{get_registered_gateway-Relates}
use ic_websocket_cdk_rs.State.Missing.{is_registered_gateway-false}
use ic_websocket_cdk_rs.State.Gateways.{get_registered_gateway, is_registered_gateway}
use ic_websocket_cdk_rs.State.Certification.{get_cert_for_range}
use ic_websocket_cdk_rs.State.Polling.{
  queue_of, gateway_queue, get_messages_for_gateway_range, collect_messages,
  get_messages_for_gateway, certified_messages, get_cert_messages, ws_get_messages,
}

module _ ⦃env : Env⦄ where
  -- The state is the same.
  abbrev Same : State → State → Type 0
  Same s t = t ≡ s

  same : IsPreorder Same
  same = record { reflexive = λ s. refl; transitive = λ s t u f g. g ∙ f }

  queue_of-Same :
      (s : State) (o : Outcome (RegisteredGateway env.Principal))
      → Holds (Same s) o
      → Holds (Same s) (queue_of o)
  queue_of-Same s (ok g t) h = h
  queue_of-Same s (err e t) h = tt
  queue_of-Same s trap h = tt

  gateway_queue-Same : (gp : env.Principal) → Relates Same (gateway_queue gp)
  unfolding gateway_queue
  gateway_queue-Same gp = record {
    at = λ s.
        queue_of-Same s (get_registered_gateway gp s)
          ((get_registered_gateway-Relates same gp).at s);
  }

  range-Same : (gp : env.Principal) (n : ℕ) → Relates Same (get_messages_for_gateway_range gp n)
  unfolding get_messages_for_gateway_range
  range-Same gp n =
      Relates-bind same (gets (λ s. s.params.max_number_of_returned_messages)) _
        (Relates-gets same _)
        λ max.
          Relates-bind same (gateway_queue gp) _ (gateway_queue-Same gp)
            λ queue. Relates-pure same _

  collect-Same :
      (n i : ℕ) (queue : List (CanisterOutputMessage env.Principal))
      → Relates Same (collect_messages n i queue)
  unfolding collect_messages
  collect-Same zero i queue = Relates-pure same []
  collect-Same (suc n) i queue =
      Relates-bind same (unwrap (get_elem? queue i)) _ (Relates-unwrap same (get_elem? queue i))
        λ m.
          Relates-bind same (collect_messages n (i + 1) queue) _ (collect-Same n (i + 1) queue)
            λ ms. Relates-pure same _

  messages-Same : (gp : env.Principal) (i j : ℕ) → Relates Same (get_messages_for_gateway gp i j)
  unfolding get_messages_for_gateway
  messages-Same gp i j =
      Relates-bind same (gateway_queue gp) _ (gateway_queue-Same gp)
        (λ queue. collect-Same _ _ queue)

  cert-Same : (first last : Text) → Relates Same (get_cert_for_range first last)
  unfolding get_cert_for_range
  cert-Same first last = Relates-bind same (gets (λ s. s)) _ (Relates-gets same (λ s. s)) λ s.
      let tree =
        env.serialize_tree (env.labeled label_websocket (env.value_range first last s.cert_tree)) in
      Relates-bind same (unwrap tree) _ (Relates-unwrap same tree) λ bytes.
        Relates-bind same (unwrap (env.data_certificate s.certified_data)) _
          (Relates-unwrap same (env.data_certificate s.certified_data))
          λ certificate. Relates-pure same (certificate, bytes)

  certified-Same :
      (ms : List (CanisterOutputMessage env.Principal)) (b : Bool)
      → Relates Same (certified_messages ms b)
  unfolding certified_messages
  certified-Same [] b = Relates-pure same _
  certified-Same (m ∷ ms) b =
      Relates-bind same (get_cert_for_range _ _) _ (cert-Same _ _) (λ r. Relates-pure same _)

  get_cert_messages-Same : (gp : env.Principal) (n : ℕ) → Relates Same (get_cert_messages gp n)
  unfolding get_cert_messages
  get_cert_messages-Same gp n =
      Relates-bind same (get_messages_for_gateway_range gp n) _ (range-Same gp n) λ range.
        Relates-bind same (get_messages_for_gateway gp range.start_index range.end_index) _
          (messages-Same gp range.start_index range.end_index)
          (λ ms. certified-Same ms range.is_end_of_queue)

  -- A poll changes nothing, and one by a principal that is no gateway gets no message.
  pub ws_get_messages-Same :
      (s : State) (caller : env.Principal) (args : CanisterWsGetMessagesArguments)
      → Holds (Same s) (ws_get_messages caller args s)
        × (get env.principal_discrete caller s.registered_gateways ≡ none
            → ws_get_messages caller args s ≡ ok empty_certified_messages s)
  unfolding ws_get_messages
  ws_get_messages-Same s caller args = (
    elim (Bool-cases (is_registered_gateway caller s)) [
      | inl e ↦ rw e ((get_cert_messages-Same caller args.nonce).at s)
      | inr e ↦ rw e refl
    ],
    λ e. rw (is_registered_gateway-false s caller e),
  )
