-- ===== src/Canister/Sessions.antt =====
-- What the library promises about connections: for each principal at most one session, with a client
-- key and the number of the next message, and the events that change the sessions. And what state.rs
-- stores of it.
use ic_websocket_cdk_rs.Prelude.{
  ℕ, ◌≡◌, ◌≢◌, refl, ◌∙◌, ap, Option, none, some, get, add64, if_pos, if_neg, Option-cases, inl,
  inr, get-update, get-update_self,
}
use ic_websocket_cdk_rs.Types.Gateway.{RegisteredClient}
use ic_websocket_cdk_rs.Env.{Env, Key}
use ic_websocket_cdk_rs.State.{State, Key-discrete}
use ic_websocket_cdk_rs.State.Clients.{add_client}
use ic_websocket_cdk_rs.State.Removal.Drop.{drop_client}
use ic_websocket_cdk_rs.State.Registry.{IsLinked, current_key}
use ic_websocket_cdk_rs.State.Registry.Changes.{
  dropped-current, dropped-incoming, added-current, added-incoming,
}
use ic_websocket_cdk_rs.State.Registry.Rules.{SameSessions}
use ic_websocket_cdk_rs.Api.Numbers.{next_number}

pub record Session ⦃env : Env⦄ : Type 0 where
  pub client_key : Key
  pub expected_sequence_num : ℕ

pub data Event ⦃env : Env⦄ : Type 0 where
  begins : Key → Event
  receives : Key → ℕ → Event
  ends : env.Principal → Event

module _ ⦃env : Env⦄ where
  abbrev pub Sessions : Type 0
  Sessions = env.Principal → Option Session

  abbrev pub Others : env.Principal → Sessions → Sessions → Type 0
  Others p t u = (q : env.Principal) → p ≢ q → u q ≡ t q

  -- A session begins where the principal has none, with the first number; a message is received in
  -- the session of its key, with the number that is expected; a session ends.
  abbrev pub Step : Event → Sessions → Sessions → Type 0
  Step (Event.begins k) t u =
      (t k.client_principal ≡ none)
      × (u k.client_principal ≡ some (record { client_key = k; expected_sequence_num = 1 }))
      × Others k.client_principal t u
  Step (Event.receives k n) t u =
      (t k.client_principal ≡ some (record { client_key = k; expected_sequence_num = n }))
      × (u k.client_principal ≡ some (record { client_key = k; expected_sequence_num = add64 n 1 }))
      × Others k.client_principal t u
  Step (Event.ends p) t u = (u p ≡ none) × Others p t u

  -- A sequence of allowed events.
  pub data Evolves (Allowed : Event → Type 0) (t : Sessions) : Sessions → Type 0 where
    unchanged : {u : Sessions} → ((p : env.Principal) → u p ≡ t p) → Evolves Allowed t u
    changed :
        {u v : Sessions} (e : Event)
        → Allowed e
        → Evolves Allowed t u
        → Step e u v
        → Evolves Allowed t v

  -- The sessions that the maps of state.rs store.
  abbrev with_number : Key → Option ℕ → Option Session
  with_number k none = none
  with_number k (some n) = some (record { client_key = k; expected_sequence_num = n })

  abbrev session_of : State → Option Key → Option Session
  session_of s none = none
  session_of s (some k) = with_number k (get Key-discrete k s.incoming_message_from_client_num_map)

  unfoldable pub sessions : State → Sessions
  sessions s p = session_of s (current_key s p)

  Step-same :
      (e : Event) (t u v : Sessions) → ((p : env.Principal) → v p ≡ u p) → Step e t u → Step e t v
  Step-same (Event.begins k) t u v h (a, b, o) = (a, h k.client_principal ∙ b, λ q n. h q ∙ o q n)
  Step-same (Event.receives k n) t u v h (a, b, o) =
      (a, h k.client_principal ∙ b, λ q m. h q ∙ o q m)
  Step-same (Event.ends p) t u v h (b, o) = (h p ∙ b, λ q n. h q ∙ o q n)

  pub Evolves-same :
      (A : Event → Type 0) (t u v : Sessions)
      → ((p : env.Principal) → v p ≡ u p)
      → Evolves A t u
      → Evolves A t v
  Evolves-same A t u v h (Evolves.unchanged e) = Evolves.unchanged (λ p. h p ∙ e p)
  Evolves-same A t u v h (Evolves.changed {u = w} e a r step) =
      Evolves.changed e a r (Step-same e w u v h step)

  same_session : (s t : State) (o : Option Key) → SameSessions s t → session_of t o ≡ session_of s o
  same_session s t none h = refl
  same_session s t (some k) h = ap (with_number k) (h.incoming k)

  pub sessions-SameSessions :
      (s t : State) → SameSessions s t → (p : env.Principal) → sessions t p ≡ sessions s p
  unfolding sessions
  sessions-SameSessions s t h p =
      ap (session_of t) (h.current p) ∙ same_session s t (current_key s p) h

  -- The session of another principal.
  kept_session :
      (s t : State) (p q : env.Principal)
      → p ≢ q
      → IsLinked s
      → current_key t q ≡ current_key s q
      → ((j : Key)
          → j.client_principal ≡ q
          → get Key-discrete j t.incoming_message_from_client_num_map
            ≡ get Key-discrete j s.incoming_message_from_client_num_map)
      → sessions t q ≡ sessions s q
  unfolding sessions
  kept_session s t p q n h current incoming =
      ap (session_of t) current ∙ elim (Option-cases (current_key s q)) [
        | inl e ↦ rw e refl
        | inr (j, e) ↦ rw e (ap (with_number j) (incoming j (h.owned q j e)))
      ]

  apart : (k j : Key) (q : env.Principal) → k.client_principal ≢ q → j.client_principal ≡ q → k ≢ j
  apart k j q n e same = n (ap (λ i. i.client_principal) same ∙ e)

  module _ (s : State) (k : Key) (h : IsLinked s) where
    pub drop_client-ends :
        Step (Event.ends k.client_principal) (sessions s) (sessions (drop_client k s))
    unfolding sessions
    drop_client-ends = (
      rw
          (
            dropped-current s k k.client_principal,
            if_pos (env.principal_discrete k.client_principal k.client_principal) refl none
                (current_key s k.client_principal),
          )
          refl,
      λ q n.
          kept_session s (drop_client k s) k.client_principal q n h
            (dropped-current s k q ∙ if_neg (env.principal_discrete k.client_principal q) n _ _)
            (λ j e. dropped-incoming s k j ∙ if_neg (Key-discrete k j) (apart k j q n e) _ _),
    )

    pub add_client-begins :
        (c : RegisteredClient env.Principal)
        → current_key s k.client_principal ≡ none
        → Step (Event.begins k) (sessions s) (sessions (add_client k c s))
    unfolding sessions
    add_client-begins c free = (
      rw free refl,
      ap (session_of (add_client k c s)) (
            added-current s k c k.client_principal
            ∙ if_pos (env.principal_discrete k.client_principal k.client_principal) refl _ _)
          ∙ ap (with_number k) (added-incoming s k c k ∙ if_pos (Key-discrete k k) refl _ _),
      λ q n.
          kept_session s (add_client k c s) k.client_principal q n h
            (added-current s k c q ∙ if_neg (env.principal_discrete k.client_principal q) n _ _)
            (λ j e. added-incoming s k c j ∙ if_neg (Key-discrete k j) (apart k j q n e) _ _),
    )

    pub next_number-receives :
        (n : ℕ)
        → current_key s k.client_principal ≡ some k
        → get Key-discrete k s.incoming_message_from_client_num_map ≡ some n
        → Step (Event.receives k n) (sessions s) (sessions (next_number k s))
    unfolding sessions
    next_number-receives n current expected = (
      rw (current, expected) refl,
      ap (session_of (next_number k s)) current
          ∙ ap (with_number k) (
              get-update_self Key-discrete k (λ m. add64 m 1) s.incoming_message_from_client_num_map
                expected),
      λ q m. kept_session s (next_number k s) k.client_principal q m h refl (λ j e.
          get-update Key-discrete k j _ s.incoming_message_from_client_num_map
          ∙ if_neg (Key-discrete k j) (apart k j q m e) _ _),
    )
