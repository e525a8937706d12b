-- ===== src/Prelude/Maps.antt =====
-- `HashMap` as an association list over keys with decidable equality. The order of the entries is
-- an accident of the model: code that iterates over a map goes through `Env.hash_order`.
use mathlib.Core.Path.{◌≡◌, refl, subst}
use mathlib.Core.Logic.{ite, if_pos, if_neg}
use mathlib.Core.List.{List, [], ◌∷◌, map}
use mathlib.Core.Option.{Option, none, some}
use mathlib.Core.Option
use native.Mathlib.Omega.{arith}
use ic_websocket_cdk_rs.Prelude.Tests.{is_some}

abbrev pub Map {ℓ} : Type ℓ → Type ℓ → Type ℓ
Map K V = List (K × V)

module _ {ℓ} {K V : Type ℓ} (d : Discrete K) where
  unfoldable pub get : K → Map K V → Option V
  get k [] = none
  get k ((j, v) ∷ m) = ite (d j k) (some v) (get k m)

  -- map.insert(k, v)
  unfoldable pub insert : K → V → Map K V → Map K V
  insert k v [] = (k, v) ∷ []
  insert k v ((j, w) ∷ m) = ite (d j k) ((k, v) ∷ m) ((j, w) ∷ insert k v m)

  -- map.remove(k), without the value that it returns
  unfoldable pub remove : K → Map K V → Map K V
  remove k [] = []
  remove k ((j, w) ∷ m) = ite (d j k) (remove k m) ((j, w) ∷ remove k m)

  -- A write through map.get_mut(k).
  unfoldable pub update : K → (V → V) → Map K V → Map K V
  update k f [] = []
  update k f ((j, w) ∷ m) = ite (d j k) ((j, f w) ∷ m) ((j, w) ∷ update k f m)

  pub get-insert :
      (k j : K) (v : V) (m : Map K V) → get j (insert k v m) ≡ ite (d k j) (some v) (get j m)
  unfolding get insert
  get-insert k j v [] = refl
  get-insert k j v ((i, w) ∷ m) = ground (arith, get-insert k j v m)

  pub get-remove : (k j : K) (m : Map K V) → get j (remove k m) ≡ ite (d k j) none (get j m)
  unfolding get remove
  get-remove k j [] = ground arith
  get-remove k j ((i, w) ∷ m) = ground (arith, get-remove k j m)

  pub get-update :
      (k j : K) (f : V → V) (m : Map K V)
      → get j (update k f m) ≡ ite (d k j) (Option.map f (get j m)) (get j m)
  unfolding get update
  get-update k j f [] = ground arith
  get-update k j f ((i, w) ∷ m) = ground (arith, get-update k j f m)

  pub get-update_self :
      (k : K) (f : V → V) (m : Map K V) {v : V}
      → get k m ≡ some v
      → get k (update k f m) ≡ some (f v)
  unfolding get update
  get-update_self k f [] {v} h = cc
  get-update_self k f ((i, w) ∷ m) {v} h = ground (arith, get-update_self k f m {v = v})

  pub get-update_hit :
      (k j : K) (f : V → V) (m : Map K V) {v : V}
      → get k m ≡ some v
      → get j (update k f m) ≡ ite (d k j) (some (f v)) (get j m)
  get-update_hit k j f m {v} h = elim (d k j) [
    | yes e ↦
        rw (if_pos _ e) (subst (λ x. get x (update k f m) ≡ some (f v)) e (get-update_self k f m h))
    | no n ↦ rw (get-update, if_neg _ n, if_neg _ n)
  ]

  -- A write through `get_mut` leaves the keys as they are.
  pub is_some-get-update :
      (k j : K) (f : V → V) (m : Map K V) → is_some (get j (update k f m)) ≡ is_some (get j m)
  is_some-get-update k j f m = rw get-update (ground arith)

  pub get-insert_self : (k : K) (v : V) (m : Map K V) → get k (insert k v m) ≡ some v
  get-insert_self k v m = rw get-insert (ground arith)

  pub get-remove_self : (k : K) (m : Map K V) → get k (remove k m) ≡ none
  get-remove_self k m = rw get-remove (ground arith)

abbrev pub keys {ℓ} : {K V : Type ℓ} → Map K V → List K
keys = map (λ e. e.0)
