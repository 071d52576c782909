-- ===== src/Base/Dict.antt =====
-- A JavaScript `Map`: entries in insertion order, one for each key. `set` on a key that is there
-- changes its value in place; on a new key it adds an entry at the end.
use mathlib.Core.Path.{◌≡◌, refl}
use mathlib.Core.Logic.{◌≢◌}
use mathlib.Core.Bool.{Bool, true, false}
use mathlib.Core.List.{List, [], ◌∷◌}
use mathlib.Core.Option.{Option, none, some}
use native.Mathlib.Omega.{arith}
use soa_harness_impl.Base.Lists.{length}
use soa_harness_impl.Base.Tests.{Key, ◌==◌, if◌then◌else◌, same_self, same-ne}

pub record Dict {ℓ κ} (K : Type ℓ) (V : Type κ) : Type (ℓ ⊔ κ) where
  pub entries : List (K × V)

module _ {ℓ κ} {K : Type ℓ} {V : Type κ} ⦃e : Key K⦄ where
  lookup_in : K → List (K × V) → Option V
  lookup_in k [] = none
  lookup_in k ((j, v) ∷ l) = if j == k then some v else lookup_in k l

  set_in : K → V → List (K × V) → List (K × V)
  set_in k v [] = (k, v) ∷ []
  set_in k v ((j, w) ∷ l) = if j == k then (j, v) ∷ l else (j, w) ∷ set_in k v l

  delete_in : K → List (K × V) → List (K × V)
  delete_in k [] = []
  delete_in k ((j, v) ∷ l) = let rest = delete_in k l in if j == k then rest else (j, v) ∷ rest

  keys_in : List (K × V) → List K
  keys_in [] = []
  keys_in ((j, v) ∷ l) = j ∷ keys_in l

  values_in : List (K × V) → List V
  values_in [] = []
  values_in ((j, v) ∷ l) = v ∷ values_in l

  unfoldable pub get : Dict K V → K → Option V
  unfolding lookup_in
  get d k = lookup_in k d.entries

  unfoldable pub set : Dict K V → K → V → Dict K V
  unfolding set_in
  set d k v = record { entries = set_in k v d.entries }

  unfoldable pub delete : Dict K V → K → Dict K V
  unfolding delete_in
  delete d k = record { entries = delete_in k d.entries }

  unfoldable pub keys : Dict K V → List K
  unfolding keys_in
  keys d = keys_in d.entries

  unfoldable pub values : Dict K V → List V
  unfolding values_in
  values d = values_in d.entries

  abbrev pub has : Dict K V → K → Bool
  has d k = elim (get d k) [ none ↦ false | some v ↦ true ]

  lookup_in-set_in :
      (k j : K) (v : V) (l : List (K × V))
      → lookup_in j (set_in k v l) ≡ (if k == j then some v else lookup_in j l)
  unfolding lookup_in set_in
  lookup_in-set_in k j v [] = refl
  lookup_in-set_in k j v ((i, w) ∷ l) =
      ground (arith, e.same_iff k j, e.same_iff i k, e.same_iff i j, lookup_in-set_in k j v l)

  lookup_in-delete_in :
      (k j : K) (l : List (K × V))
      → lookup_in j (delete_in k l) ≡ (if k == j then none else lookup_in j l)
  unfolding lookup_in delete_in
  lookup_in-delete_in k j [] = ground arith
  lookup_in-delete_in k j ((i, w) ∷ l) =
      ground (arith, e.same_iff k j, e.same_iff i k, e.same_iff i j, lookup_in-delete_in k j l)

  lookup_in-nil : (l : List (K × V)) (k : K) → length (keys_in l) ≡ 0 → lookup_in k l ≡ none
  unfolding lookup_in keys_in
  lookup_in-nil [] k h = refl
  lookup_in-nil ((j, v) ∷ l) k h = absurd (omega arith)

  -- A map without keys has no values.
  pub get-nil : (d : Dict K V) (k : K) → length (keys d) ≡ 0 → get d k ≡ none
  unfolding get keys
  get-nil d k h = lookup_in-nil d.entries k h

  pub get-set :
      (d : Dict K V) (k j : K) (v : V) → get (set d k v) j ≡ (if k == j then some v else get d j)
  unfolding get set
  get-set d k j v = lookup_in-set_in k j v d.entries

  pub get-delete :
      (d : Dict K V) (k j : K) → get (delete d k) j ≡ (if k == j then none else get d j)
  unfolding get delete
  get-delete d k j = lookup_in-delete_in k j d.entries

  pub get-set_self : (d : Dict K V) (k : K) (v : V) → get (set d k v) k ≡ some v
  get-set_self d k v = simp (get-set, same_self)

  pub get-set_ne : (d : Dict K V) (k j : K) (v : V) → k ≢ j → get (set d k v) j ≡ get d j
  get-set_ne d k j v h = rw (get-set d k j v, same-ne k j h)

  pub get-delete_self : (d : Dict K V) (k : K) → get (delete d k) k ≡ none
  get-delete_self d k = simp (get-delete, same_self)

  pub get-delete_ne : (d : Dict K V) (k j : K) → k ≢ j → get (delete d k) j ≡ get d j
  get-delete_ne d k j h = rw (get-delete d k j, same-ne k j h)

module _ {ℓ κ} {K : Type ℓ} {V : Type κ} where
  abbrev pub empty : Dict K V
  empty = record { entries = [] }

module _ {ℓ κ} {K : Type ℓ} {V : Type κ} ⦃e : Key K⦄ where
  pub get-empty : (k : K) → get {V = V} empty k ≡ none
  unfolding get lookup_in
  get-empty k = refl
