-- ===== src/Broadcast/Table.antt =====
-- `HashMap<Uuid, _>` as an association list, with `get`, `insert` and `get_mut`.
use mathlib.Core.Logic.{ite}
use mathlib.Core.Option
use ai_wallet.Prelude.{◌≡◌, List, [], ◌∷◌, Option, none, some, arith, refl}
use ai_wallet.Crates.{Crates}

module _ {ℓ} (K : Crates) {V : Type ℓ} where
  unfoldable pub get : K.Uuid → List (K.Uuid × V) → Option V
  get k [] = none
  get k ((j, v) ∷ m) = ite (K.uuid_eq j k) (some v) (get k m)

  unfoldable pub insert : K.Uuid → V → List (K.Uuid × V) → List (K.Uuid × V)
  insert k v [] = (k, v) ∷ []
  insert k v ((j, w) ∷ m) = ite (K.uuid_eq j k) ((k, v) ∷ m) ((j, w) ∷ insert k v m)

  -- A write through `get_mut`; nothing without the key.
  unfoldable pub modify : K.Uuid → (V → V) → List (K.Uuid × V) → List (K.Uuid × V)
  modify k f [] = []
  modify k f ((j, v) ∷ m) = ite (K.uuid_eq j k) ((j, f v) ∷ m) ((j, v) ∷ modify k f m)

  pub get-insert :
      (k j : K.Uuid) (v : V) (m : List (K.Uuid × V))
      → get j (insert k v m) ≡ ite (K.uuid_eq k j) (some v) (get j m)
  unfolding get insert
  get-insert k j v [] = refl
  get-insert k j v ((i, w) ∷ m) = ground (arith, get-insert k j v m)

  pub get-modify :
      (k j : K.Uuid) (f : V → V) (m : List (K.Uuid × V))
      → get j (modify k f m) ≡ ite (K.uuid_eq k j) (Option.map f (get j m)) (get j m)
  unfolding get modify
  get-modify k j f [] = ground arith
  get-modify k j f ((i, w) ∷ m) = ground (arith, get-modify k j f m)
