-- ===== src/Types/Gateway/Expiry.antt =====
-- What `RegisteredGateway::delete_old_messages` of types.rs removes.
use ic_websocket_cdk_rs.Prelude.{
  ℕ, zero, suc, ◌≤◌, ◌≡◌, refl, ap, ◌⊎◌, true, false, some, List, [], ◌∷◌, ◌++◌, map, inl, inr,
  Text, arith, length, take, drop, All, if◌then◌else◌, Bool-cases, length-drop,
}
use mathlib.Core.List.{append-nil, append_assoc}
use ic_websocket_cdk_rs.Types.Messages.{CanisterOutputMessage}
use ic_websocket_cdk_rs.Types.Gateway.{
  RegisteredGateway, MessageToDelete, is_older, delete_loop, delete_old_messages, put_queues,
}

-- How many entries at the front are old, `n` at most.
unfoldable pub old_prefix : ℕ → ℕ → ℕ → List MessageToDelete → ℕ
old_prefix zero time age ms = 0
old_prefix (suc n) time age [] = 0
old_prefix (suc n) time age (m ∷ ms) =
    let rest = suc (old_prefix n time age ms) in if is_older time age m.timestamp then rest else 0

abbrev pub message_keys : {P : Type 0} → List (CanisterOutputMessage P) → List Text
message_keys = map (λ x. x.key)

-- Each queued message has its entry among the timestamps.
abbrev pub IsAligned : {P : Type 0} → RegisteredGateway P → Type 0
IsAligned g = length g.messages_queue ≡ length g.messages_to_delete

old_prefix-le-bound : (n time age : ℕ) (ms : List MessageToDelete) → old_prefix n time age ms ≤ n
unfolding old_prefix
old_prefix-le-bound zero time age ms = omega arith
old_prefix-le-bound (suc n) time age [] = omega arith
old_prefix-le-bound (suc n) time age (m ∷ ms) = ground (arith, old_prefix-le-bound n time age ms)

old_prefix-le-length :
    (n time age : ℕ) (ms : List MessageToDelete) → old_prefix n time age ms ≤ length ms
unfolding old_prefix
old_prefix-le-length zero time age ms = omega arith
old_prefix-le-length (suc n) time age [] = omega arith
old_prefix-le-length (suc n) time age (m ∷ ms) = ground (arith, old_prefix-le-length n time age ms)

old_prefix-All :
    (n time age : ℕ) (ms : List MessageToDelete)
    → All (λ m. is_older time age m.timestamp ≡ true) (take (old_prefix n time age ms) ms)
unfolding old_prefix
old_prefix-All zero time age ms = tt
old_prefix-All (suc n) time age [] = tt
old_prefix-All (suc n) time age (m ∷ ms) = ground (arith, old_prefix-All n time age ms)

-- The first entry, if there is one, is not old.
abbrev pub StartsYoung : ℕ → ℕ → List MessageToDelete → Type 0
StartsYoung time age [] = Unit
StartsYoung time age (m ∷ ms) = is_older time age m.timestamp ≡ false

old_prefix-StartsYoung :
    (n time age : ℕ) (ms : List MessageToDelete)
    → (old_prefix n time age ms ≡ n) ⊎ StartsYoung time age (drop (old_prefix n time age ms) ms)
unfolding old_prefix
old_prefix-StartsYoung zero time age ms = inl refl
old_prefix-StartsYoung (suc n) time age [] = inr tt
old_prefix-StartsYoung (suc n) time age (m ∷ ms) =
    elim (Bool-cases (is_older time age m.timestamp)) [
      | inl old ↦
          rw old
            (elim (old_prefix-StartsYoung n time age ms) [ inl e ↦ inl (ap suc e) | inr y ↦ inr y ])
      | inr young ↦ rw young (inr young)
    ]

module _ {P : Type 0} where
  delete_loop_lem :
      (n time age : ℕ) (xs : List (CanisterOutputMessage P)) (ms : List MessageToDelete)
      (keys : List Text)
      → length xs ≡ length ms
      → let k = old_prefix n time age ms in
        delete_loop n time age xs ms keys
        ≡ some (drop k xs, drop k ms, keys ++ message_keys (take k xs))
  unfolding delete_loop old_prefix
  delete_loop_lem zero time age xs ms keys h = simp append-nil
  delete_loop_lem (suc n) time age [] [] keys h = simp append-nil
  delete_loop_lem (suc n) time age (x ∷ xs) [] keys h = absurd (omega arith)
  delete_loop_lem (suc n) time age [] (m ∷ ms) keys h = absurd (omega arith)
  delete_loop_lem (suc n) time age (x ∷ xs) (m ∷ ms) keys h =
      elim (Bool-cases (is_older time age m.timestamp)) [
        | inl old ↦
            rw (old, delete_loop_lem n time age xs ms (keys ++ x.key ∷ []) (omega arith))
              (rw append_assoc refl)
        | inr young ↦ rw young (simp append-nil)
      ]

  pub delete_old_messages_lem :
      (g : RegisteredGateway P) (n age time : ℕ)
      → IsAligned g
      → let k = old_prefix n time age g.messages_to_delete in
        delete_old_messages g n age time
        ≡ some (
          record g {
            messages_queue = drop k g.messages_queue;
            messages_to_delete = drop k g.messages_to_delete;
          },
          message_keys (take k g.messages_queue),
        )
  unfolding delete_old_messages
  delete_old_messages_lem g n age time h =
      rw (delete_loop_lem n time age g.messages_queue g.messages_to_delete [] h, put_queues)

  pub delete_old_messages-StartsYoung :
      (g : RegisteredGateway P) (n age time : ℕ)
      → IsAligned g
      → (k : ℕ) × (g' : RegisteredGateway P) × (delete_old_messages g n age time
          ≡ some (g', message_keys (take k g.messages_queue)))
        × (g'.messages_queue ≡ drop k g.messages_queue)
        × (g'.messages_to_delete ≡ drop k g.messages_to_delete)
        × (g'.outgoing_message_nonce ≡ g.outgoing_message_nonce)
        × (g'.connected_clients_count ≡ g.connected_clients_count)
        × (k ≤ n)
        × All (λ m. is_older time age m.timestamp ≡ true) (take k g.messages_to_delete)
        × ((k ≡ n) ⊎ StartsYoung time age g'.messages_to_delete)
        × IsAligned g'
  delete_old_messages-StartsYoung g n age time h =
      let k = old_prefix n time age g.messages_to_delete in
      (
        k,
        _,
        delete_old_messages_lem g n age time h,
        refl,
        refl,
        refl,
        refl,
        old_prefix-le-bound n time age g.messages_to_delete,
        old_prefix-All n time age g.messages_to_delete,
        old_prefix-StartsYoung n time age g.messages_to_delete,
        omega (arith, h, length-drop k g.messages_queue, length-drop k g.messages_to_delete),
      )
