-- ===== src/Base/Rings.antt =====
-- A bounded buffer for each session, as the stream emitter and the system log keep them: a `Map`
-- from session ids to arrays that are pushed to at the end and shifted where a bound is passed.
use mathlib.Core.Path.{◌≡◌, ◌∙◌, sym, ap}
use mathlib.Core.Logic.{◌≢◌, inl, inr}
use mathlib.Core.Bool.{false≢true}
use mathlib.Core.List.{List, [], ◌∷◌, ◌++◌, append-nil, append_assoc}
use Prim.Native.Nat.{ℕ}
use Prim.Native.String.{String}
use text.Mathlib.TextEquality.{eq_iff}
use soa_harness_impl.Base.Tests.{◌==◌, if◌then◌else◌, Bool-cases, string_key}
use soa_harness_impl.Base.Lists.{option_or, push_bounded, take_last, push_bounded-take_last}
use soa_harness_impl.Base.Dict
use soa_harness_impl.Base.Dict.{Dict, get-set_self, get-set_ne}

module _ {ℓ} {A : Type ℓ} where
  -- `map.get(k) ?? []`
  abbrev pub ring : Dict String (List A) → String → List A
  ring d k = option_or (Dict.get d k) []

  unfoldable pub push_ring : ℕ → Dict String (List A) → String → A → Dict String (List A)
  push_ring bound d k x = Dict.set d k (push_bounded bound (ring d k) x)

  pub ring-push_ring_self :
      (bound : ℕ) (d : Dict String (List A)) (k : String) (x : A)
      → ring (push_ring bound d k x) k ≡ push_bounded bound (ring d k) x
  unfolding push_ring
  ring-push_ring_self bound d k x = rw get-set_self

  pub ring-push_ring_ne :
      (bound : ℕ) (d : Dict String (List A)) (k j : String) (x : A)
      → k ≢ j
      → ring (push_ring bound d k x) j ≡ ring d j
  unfolding push_ring
  ring-push_ring_ne bound d k j x ne = rw (get-set_ne d k j _ ne)

  -- The values pushed for one session, oldest first.
  unfoldable pub pushed_for : String → List (String × A) → List A
  pushed_for k [] = []
  pushed_for k ((j, x) ∷ rest) =
      let others = pushed_for k rest in if j == k then x ∷ others else others

  unfoldable pub push_all : ℕ → Dict String (List A) → List (String × A) → Dict String (List A)
  push_all bound d [] = d
  push_all bound d ((j, x) ∷ rest) = push_all bound (push_ring bound d j x) rest

  -- The ring of a session holds the last values pushed for it, whatever was pushed for others.
  pub ring-push_all :
      (bound : ℕ) (d : Dict String (List A)) (k : String) (before : List A)
      (rest : List (String × A))
      → ring d k ≡ take_last bound before
      → ring (push_all bound d rest) k ≡ take_last bound (before ++ pushed_for k rest)
  unfolding push_all pushed_for
  ring-push_all bound d k before [] h = h ∙ ap (take_last bound) (sym (append-nil before))
  ring-push_all bound d k before ((j, x) ∷ rest) h = elim (Bool-cases (j == k)) [
    | inl same ↦
        rw (same, ← append_assoc before (x ∷ []) (pushed_for k rest))
          (ring-push_all bound (push_ring bound d j x) k (before ++ x ∷ []) rest (
            rw ((eq_iff j k).0 same) (
              ring-push_ring_self bound d k x
              ∙ ap (λ r. push_bounded bound r x) h
              ∙ push_bounded-take_last bound before x)))
    | inr other ↦ rw other (
        ring-push_all bound (push_ring bound d j x) k before rest
          (ring-push_ring_ne bound d j k x (λ e. false≢true (sym other ∙ (eq_iff j k).1 e)) ∙ h))
  ]
