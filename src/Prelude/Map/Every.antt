-- ===== src/Prelude/Map/Every.antt =====
-- What holds of every entry of a map, and what the operations on maps keep of it.
use mathlib.Core.Path.{subst}
use polyrust.Prelude.{◌≡◌, Bool, some, inl, inr, arith, Bool-cases, Option-cases}
use polyrust.Prelude.Text.{Text, text_eq, text_eq→eq}
use polyrust.Prelude.Map.{
  Map, IsMap, lookup, insert, remove, retain, update, map_values, lookup-insert, lookup-remove,
  lookup-retain, lookup-update, lookup-map_values,
}

module _ {ℓ κ} {V : Type ℓ} (P : Text → V → Type κ) where
  abbrev pub Every : Map V → Type (ℓ ⊔ κ)
  Every m = (k : Text) (v : V) → lookup k m ≡ some v → P k v

  pub Every-insert : (k : Text) (v : V) (m : Map V) → P k v → Every m → Every (insert k v m)
  Every-insert k v m h every j w e = elim (Bool-cases (text_eq k j)) [
    | inl same ↦
        let e' : v ≡ w = ground (arith, lookup-insert k j v m) in
        subst (λ x. P x w) (text_eq→eq k j same) (subst (P k) e' h)
    | inr other ↦ every j w (ground (arith, lookup-insert k j v m))
  ]

  pub Every-remove : (k : Text) (m : Map V) → Every m → Every (remove k m)
  Every-remove k m every j w e = every j w (ground (arith, lookup-remove k j m))

  pub Every-retain : (p : Text → V → Bool) (m : Map V) → IsMap m → Every m → Every (retain p m)
  Every-retain p m valid every j w e = elim (Option-cases (lookup j m)) [
    | inl missing ↦ cc (rw missing at (lookup-retain p j m valid))
    | inr (v, found) ↦ every j w (ground (arith, lookup-retain p j m valid))
  ]

  pub Every-update :
      (k : Text) (f : V → V) (m : Map V)
      → ((j : Text) (v : V) → P j v → P j (f v))
      → Every m
      → Every (update k f m)
  Every-update k f m keep every j w e = elim (Option-cases (lookup j m)) [
    | inl missing ↦ absurd (ground (arith, lookup-update k j f m))
    | inr (v, found) ↦ elim (Bool-cases (text_eq k j)) [
      | inl same ↦
          let e' : f v ≡ w = ground (arith, lookup-update k j f m) in
          subst (P j) e' (keep j v (every j v found))
      | inr other ↦ every j w (ground (arith, lookup-update k j f m))
    ]
  ]

  pub Every-map_values :
      (f : V → V) (m : Map V)
      → ((j : Text) (v : V) → P j v → P j (f v))
      → Every m
      → Every (map_values f m)
  Every-map_values f m keep every j w e = elim (Option-cases (lookup j m)) [
    | inl missing ↦ absurd (ground (arith, lookup-map_values j f m))
    | inr (v, found) ↦
        let e' : f v ≡ w = ground (arith, lookup-map_values j f m) in
        subst (P j) e' (keep j v (every j v found))
  ]
