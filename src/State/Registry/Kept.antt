-- ===== src/State/Registry/Kept.antt =====
-- The functions of state.rs and `close` of lib.rs keep every property that follows the rules of
-- State/Registry/Rules.antt.
use ic_websocket_cdk_rs.Prelude.{
  ◌≡◌, refl, ◌∙◌, sym, ap, Option, none, some, List, [], ◌∷◌, arith, get, Option-cases, inl, inr,
  All, if_pos,
}
use ic_websocket_cdk_rs.Types.Messages.{CloseMessageReason, closed_by_application}
use ic_websocket_cdk_rs.Env.{Env, Key}
use ic_websocket_cdk_rs.State.{State, Exec}
use ic_websocket_cdk_rs.State.Relates.{
  Holds, IsPreorder, Relates, Relates-map, Holds-map, Holds-bind, Preserves, Preserves-IsPreorder,
  Preserves-intro,
}
use ic_websocket_cdk_rs.State.Steps.{get_client_key_from_principal_ok}
use ic_websocket_cdk_rs.State.Missing.{get_client_key_from_principal_err}
use ic_websocket_cdk_rs.State.Sending.Frame.{SameClients}
use ic_websocket_cdk_rs.State.Removal.{remove_client, remove_clients, close}
use ic_websocket_cdk_rs.State.Removal.Drop.{drop_client, remove_client-Holds}
use ic_websocket_cdk_rs.State.Registry.{current_key}
use ic_websocket_cdk_rs.State.Registry.Changes.{IsAlone, registered-IsAlone, dropped-current}
use ic_websocket_cdk_rs.State.Registry.Rules.{IsKept, SameClients-SameRegistry}

module _ ⦃env : Env⦄ where
  abbrev pub Keeps : (State → Type 0) → {A : Type 0} → Exec A → Type 0
  Keeps P m = Relates (Preserves P) m

  abbrev pub keeping : (P : State → Type 0) → IsPreorder (Preserves P)
  keeping P = Preserves-IsPreorder P

  -- Principals that are connected after a removal were connected before, with the same key.
  IsAlone-dropped :
      (s t : State) (k j : Key) → SameClients (drop_client k s) t → IsAlone s j → IsAlone t j
  IsAlone-dropped s t k j h alone i e =
      let before : current_key (drop_client k s) j.client_principal ≡ some i =
        sym (ap (get env.principal_discrete j.client_principal) h.current) ∙ e in
      ground (arith, dropped-current s k j.client_principal, alone i)

  All-IsAlone-dropped :
      (s t : State) (k : Key) (js : List Key)
      → SameClients (drop_client k s) t
      → All (IsAlone s) js
      → All (IsAlone t) js
  All-IsAlone-dropped s t k [] h a = tt
  All-IsAlone-dropped s t k (j ∷ js) h a =
      (IsAlone-dropped s t k j h a.0, All-IsAlone-dropped s t k js h a.1)

  module _ {Drops : Key → Type 0} {P : State → Type 0} (kept : IsKept Drops P) where
    -- What leaves the registrations alone.
    pub same-Keeps : {A : Type 0} (m : Exec A) → Relates SameClients m → Keeps P m
    same-Keeps m h = Relates-map m (λ s t e. kept.same s t (SameClients-SameRegistry s t e)) h

    -- The property holds, and the clients `ks` are the only ones of their principals.
    abbrev AllAlone : List Key → State → Type 0
    AllAlone ks s = P s × All (IsAlone s) ks

    after_drop :
        (s t : State) (k : Key)
        → Drops k
        → SameClients (drop_client k s) t
        → P s
        → IsAlone s k
        → P t
    after_drop s t k drops e h alone =
        kept.same (drop_client k s) t (SameClients-SameRegistry (drop_client k s) t e)
          (kept.dropped s k drops h alone)

    module _ (k : Key) (reason : Option CloseMessageReason) (drops : Drops k) where
      remove_client-AllAlone :
          (js : List Key) (s : State)
          → AllAlone (k ∷ js) s
          → Holds (AllAlone js) (remove_client k reason s)
      remove_client-AllAlone js s (h, alone) =
          Holds-map (remove_client k reason s)
            (λ t d. (after_drop s t k drops d h alone.0, All-IsAlone-dropped s t k js d alone.1))
            (remove_client-Holds k reason s)

      pub remove_client-keeps : (s : State) → P s → IsAlone s k → Holds P (remove_client k reason s)
      remove_client-keeps s h alone =
          Holds-map (remove_client k reason s) (λ t a. a.0)
            (remove_client-AllAlone [] s (h, (alone, tt)))

      -- Afterwards the principal of the client is not connected.
      pub remove_client-free :
          (s : State)
          → P s
          → IsAlone s k
          → Holds (λ t. P t × (current_key t k.client_principal ≡ none)) (remove_client k reason s)
      remove_client-free s h alone =
          Holds-map (remove_client k reason s)
            (λ t d. (
              after_drop s t k drops d h alone,
              ap (get env.principal_discrete k.client_principal) d.current
                  ∙ rw (dropped-current, if_pos _ refl),
            ))
            (remove_client-Holds k reason s)

    pub remove_clients-keeps :
        (ks : List Key) (reason : Option CloseMessageReason) (s : State)
        → ((k : Key) → Drops k)
        → P s
        → All (IsAlone s) ks
        → Holds P (remove_clients ks reason s)
    unfolding remove_clients
    remove_clients-keeps [] reason s drops h alone = h
    remove_clients-keeps (k ∷ ks) reason s drops h alone =
        Holds-bind (remove_client k reason s) _
          (remove_client-AllAlone k reason (drops k) ks s (h, alone)) (λ t a. a.0)
          (λ _ t a. remove_clients-keeps ks reason t drops a.0 a.1)

    -- `close` drops a client of its principal.
    pub close-Keeps :
        (p : env.Principal) → ((k : Key) → k.client_principal ≡ p → Drops k) → Keeps P (close p)
    unfolding close
    close-Keeps p drops = Preserves-intro P (close p) λ s h.
        let l = kept.linked s h in
        elim (Option-cases (current_key s p)) [
          | inl e ↦ rw (get_client_key_from_principal_err s p e) h
          | inr (k, e) ↦ rw (get_client_key_from_principal_ok s p e) (
              Holds-bind (remove_client k (some closed_by_application) s) _
                (remove_client-keeps k (some closed_by_application) (drops k (l.owned p k e)) s h
                  (registered-IsAlone s k l (l.registered p k e)))
                (λ t l. l) (λ _ t l. l))
        ]
