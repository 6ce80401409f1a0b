-- ===== src/Prelude/Map.antt =====
-- `HashMap<K, V>` with keys that are texts, as an association list. The order of the entries stands
-- for the map's order of iteration, which the source leaves open: a statement about every list of
-- entries covers every order. `IsMap` says that no key occurs twice.
pub mod Every
use polyrust.Prelude.{
  ◌≡◌, refl, Bool, true, false, inl, inr, Option, none, some, List, [], ◌∷◌, arith, Bool-cases,
  and_then, if◌then◌else◌,
}
use polyrust.Prelude.Text.{Text, text_eq, text_eq_iff, text_eq_refl}

abbrev pub Map {ℓ} : Type ℓ → Type ℓ
Map V = List (Text × V)

abbrev pub map_option {ℓ κ} : {A : Type ℓ} {B : Type κ} → (A → B) → Option A → Option B
map_option f none = none
map_option f (some a) = some (f a)

module _ {ℓ} {V : Type ℓ} where
  -- `get`
  unfoldable pub lookup : Text → Map V → Option V
  lookup k [] = none
  lookup k ((j, v) ∷ m) = if text_eq j k then some v else lookup k m

  unfoldable pub insert : Text → V → Map V → Map V
  insert k v [] = (k, v) ∷ []
  insert k v ((j, w) ∷ m) = if text_eq j k then (k, v) ∷ m else (j, w) ∷ insert k v m

  unfoldable pub remove : Text → Map V → Map V
  remove k [] = []
  remove k ((j, w) ∷ m) = let rest = remove k m in if text_eq j k then rest else (j, w) ∷ rest

  -- `retain`
  unfoldable pub retain : (Text → V → Bool) → Map V → Map V
  retain p [] = []
  retain p ((j, w) ∷ m) = let rest = retain p m in if p j w then (j, w) ∷ rest else rest

  -- `if let Some(v) = get_mut(k) { *v = f(*v) }`
  unfoldable pub update : Text → (V → V) → Map V → Map V
  update k f [] = []
  update k f ((j, w) ∷ m) = if text_eq j k then (j, f w) ∷ m else (j, w) ∷ update k f m

  -- `for v in values_mut() { *v = f(*v) }`
  unfoldable pub map_values : (V → V) → Map V → Map V
  map_values f [] = []
  map_values f ((j, w) ∷ m) = (j, f w) ∷ map_values f m

  -- `values().any(p)`
  unfoldable pub any_value : (V → Bool) → Map V → Bool
  any_value p [] = false
  any_value p ((j, w) ∷ m) = if p w then true else any_value p m

  -- `iter().find(|(_, v)| p(v)).map(|(k, _)| k)`
  unfoldable pub find_key : (V → Bool) → Map V → Option Text
  find_key p [] = none
  find_key p ((j, w) ∷ m) = if p w then some j else find_key p m

  abbrev pub IsMap : Map V → Type ℓ
  IsMap [] = Unit
  IsMap ((k, v) ∷ m) = (lookup k m ≡ none) × IsMap m

  pub lookup-insert :
      (k j : Text) (v : V) (m : Map V)
      → lookup j (insert k v m) ≡ (if text_eq k j then some v else lookup j m)
  unfolding lookup insert
  lookup-insert k j v [] = refl
  lookup-insert k j v ((i, w) ∷ m) =
      ground (arith, text_eq_iff k j, text_eq_iff i k, text_eq_iff i j, lookup-insert k j v m)

  pub lookup-insert_self : (k : Text) (v : V) (m : Map V) → lookup k (insert k v m) ≡ some v
  lookup-insert_self k v m = ground (arith, lookup-insert k k v m, text_eq_refl k)

  pub lookup-remove :
      (k j : Text) (m : Map V) → lookup j (remove k m) ≡ (if text_eq k j then none else lookup j m)
  unfolding lookup remove
  lookup-remove k j [] = ground arith
  lookup-remove k j ((i, w) ∷ m) =
      ground (arith, text_eq_iff k j, text_eq_iff i k, text_eq_iff i j, lookup-remove k j m)

  pub lookup-update :
      (k j : Text) (f : V → V) (m : Map V)
      → lookup j (update k f m) ≡ (if text_eq k j then map_option f (lookup j m) else lookup j m)
  unfolding lookup update
  lookup-update k j f [] = ground arith
  lookup-update k j f ((i, w) ∷ m) =
      ground (arith, text_eq_iff k j, text_eq_iff i k, text_eq_iff i j, lookup-update k j f m)

  pub lookup-map_values :
      (j : Text) (f : V → V) (m : Map V) → lookup j (map_values f m) ≡ map_option f (lookup j m)
  unfolding lookup map_values
  lookup-map_values j f [] = refl
  lookup-map_values j f ((i, w) ∷ m) = ground (arith, lookup-map_values j f m)

  lookup-retain-none :
      (p : Text → V → Bool) (j : Text) (m : Map V)
      → lookup j m ≡ none
      → lookup j (retain p m) ≡ none
  unfolding lookup retain
  lookup-retain-none p j [] h = refl
  lookup-retain-none p j ((i, w) ∷ m) h = ground (arith, lookup-retain-none p j m)

  pub lookup-retain :
      (p : Text → V → Bool) (j : Text) (m : Map V)
      → IsMap m
      → lookup j (retain p m) ≡ and_then (lookup j m) (λ v. if p j v then some v else none)
  unfolding lookup retain
  lookup-retain p j [] h = refl
  lookup-retain p j ((i, w) ∷ m) h =
      ground (arith, lookup-retain p j m h.1, text_eq_iff i j, lookup-retain-none p j m)

  pub insert-IsMap : (k : Text) (v : V) (m : Map V) → IsMap m → IsMap (insert k v m)
  unfolding lookup insert
  insert-IsMap k v [] h = (refl, tt)
  insert-IsMap k v ((j, w) ∷ m) h =
      ground
        (arith, insert-IsMap k v m h.1, lookup-insert k j v m, text_eq_iff j k, text_eq_iff k j)

  pub remove-IsMap : (k : Text) (m : Map V) → IsMap m → IsMap (remove k m)
  unfolding lookup remove
  remove-IsMap k [] h = tt
  remove-IsMap k ((j, w) ∷ m) h = ground (arith, remove-IsMap k m h.1, lookup-remove k j m)

  pub retain-IsMap : (p : Text → V → Bool) (m : Map V) → IsMap m → IsMap (retain p m)
  unfolding lookup retain
  retain-IsMap p [] h = tt
  retain-IsMap p ((j, w) ∷ m) h = ground (arith, retain-IsMap p m h.1, lookup-retain-none p j m)

  pub update-IsMap : (k : Text) (f : V → V) (m : Map V) → IsMap m → IsMap (update k f m)
  unfolding lookup update
  update-IsMap k f [] h = tt
  update-IsMap k f ((j, w) ∷ m) h = ground (arith, update-IsMap k f m h.1, lookup-update k j f m)

  pub map_values-IsMap : (f : V → V) (m : Map V) → IsMap m → IsMap (map_values f m)
  unfolding lookup map_values
  map_values-IsMap f [] h = tt
  map_values-IsMap f ((j, w) ∷ m) h =
      ground (arith, map_values-IsMap f m h.1, lookup-map_values j f m)

  -- What a search finds is an entry that passes the test, and no entry passes where it finds none.
  pub find_key-some :
      (p : V → Bool) (m : Map V) (k : Text)
      → IsMap m
      → find_key p m ≡ some k
      → (v : V) × (lookup k m ≡ some v) × (p v ≡ true)
  unfolding lookup find_key
  find_key-some p [] k h e = cc
  find_key-some p ((j, w) ∷ m) k h e = elim (Bool-cases (p w)) [
    | inl hit ↦ (w, ground (arith, text_eq_iff j k, text_eq_refl k), hit)
    | inr miss ↦
        let (v, l, q) = find_key-some p m k h.1 (ground arith) in
        (v, ground (arith, text_eq_iff j k), q)
  ]

  pub find_key-none :
      (p : V → Bool) (m : Map V) (k : Text) (v : V)
      → find_key p m ≡ none
      → lookup k m ≡ some v
      → p v ≡ false
  unfolding lookup find_key
  find_key-none p [] k v e l = cc
  find_key-none p ((j, w) ∷ m) k v e l = ground (arith, find_key-none p m k v)

  pub any_value-false :
      (p : V → Bool) (m : Map V) (k : Text) (v : V)
      → any_value p m ≡ false
      → lookup k m ≡ some v
      → p v ≡ false
  unfolding lookup any_value
  any_value-false p [] k v e l = cc
  any_value-false p ((j, w) ∷ m) k v e l = ground (arith, any_value-false p m k v)

  pub any_value-true :
      (p : V → Bool) (m : Map V) (k : Text) (v : V)
      → lookup k m ≡ some v
      → p v ≡ true
      → any_value p m ≡ true
  unfolding lookup any_value
  any_value-true p [] k v l e = cc
  any_value-true p ((j, w) ∷ m) k v l e = ground (arith, any_value-true p m k v)
