-- ===== src/Audit/Chain/Trees.antt =====
-- A hash without collisions, as a tree: an instance of the interface for the tests.
use native.Mathlib.Decide.{ℕ_discrete}
use soa_harness_impl.Base.{
  Key, refl, ◌≢◌, ◌↔◌, eq_iff, ◌==◌, Bool-cases, inl, inr, false≢true, sym, ◌∙◌, ℕ, ◌≡◌, ap, String,
  Bool, true, false, string_key,
}
use soa_harness_impl.Base.Dict
use soa_harness_impl.Base.Dict.{Dict}
use soa_harness_impl.Audit.{Value}
use soa_harness_impl.Audit.Chain.{Unhashed, Crypto}

pub data Tree : Type 0 where
  root : Tree
  link : Tree → Dict String Value → ℕ → Tree → Tree

abbrev pub parent : Tree → Tree
parent root = root
parent (link p e t q) = p

abbrev pub content : Tree → Unhashed Tree
content root = record { extra = Dict.empty; timestamp = 0; prev_hash = root }
content (link p e t q) = record { extra = e; timestamp = t; prev_hash = q }

pub no_root :
    (p : Tree) (u : Unhashed Tree) → ◌≢◌ {A = Tree} (link p u.extra u.timestamp u.prev_hash) root
no_root p u h = cc

abbrev pub trees : Crypto
trees = record {
  Digest = Tree;
  Canonical = Unhashed Tree;
  genesis = root;
  jcs = λ u. u;
  sha256 = λ p u. link p u.extra u.timestamp u.prev_hash;
  sha256_left = λ p q a b h. ap parent h;
  sha256_right = λ p q a b h. ap content h;
  sha256_genesis = no_root;
}

text_discrete : Discrete String
text_discrete s t = elim (Bool-cases (s == t)) [
  | inl e ↦ yes ((eq_iff s t).0 e)
  | inr e ↦ no (λ h. false≢true (sym e ∙ (eq_iff s t).1 h))
]

value-discrete : Discrete Value
value-discrete = hlevel (ℕ_discrete, text_discrete)

tree-discrete : Discrete Tree
tree-discrete = hlevel (ℕ_discrete, text_discrete, value-discrete)

abbrev holds : {A : Type 0} → Dec A → Bool
holds (yes a) = true
holds (no n) = false

holds_iff : {A : Type 0} (d : Dec A) → (holds d ≡ true) ↔ A
holds_iff (yes a) = (λ h. a, λ h. refl)
holds_iff (no n) = (λ h. absurd (false≢true h), λ a. absurd (n a))

-- Hashes name the files of the audit sink.
pub tree_key : Key Tree
tree_key = record {
  same = λ a b. holds (tree-discrete a b);
  same_iff = λ a b. holds_iff (tree-discrete a b);
}
