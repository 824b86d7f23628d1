-- ===== src/Formula/Preds/Numbering.antt =====
-- src/formula.cpp: the numbers of predicates tell names and arities apart.
use Prim.Native.String.{String}
use text.Mathlib.Text.{◌==◌ as str_eq}
use text.Mathlib.TextEquality.{eq_iff}
use cppmon.Shared.{
  ℕ, ◌≤◌, ◌<◌, ◌≡◌, ◌⊎◌, inl, inr, sym, subst, ap, ap₂, ◌∙◌, ◌&&◌, Option, none, some, ◌==◌, arith,
  if◌then◌else◌, ite,
}

-- The number of a built-in predicate.
unfoldable pub builtin : String × ℕ → Option ℕ
builtin k =
    if str_eq k.0 "tp" && k.1 == 1
    then some 1
    else if str_eq k.0 "ts" && k.1 == 1
    then some 0
    else if str_eq k.0 "tpts" && k.1 == 2
    then some 2
    else none

pub builtin-below : (k : String × ℕ) (p : ℕ) → builtin k ≡ some p → p < 3
unfolding builtin
builtin-below k p e = ground (arith, e)

pub builtin_injective : (k j : String × ℕ) (p : ℕ) → builtin k ≡ some p → builtin j ≡ some p → k ≡ j
unfolding builtin
builtin_injective (n, a) (m, b) p e f =
    ap₂ (λ (x : String) (y : ℕ). (x, y))
      (ground (
        arith,
        e,
        f,
        eq_iff n "tp",
        eq_iff m "tp",
        eq_iff n "ts",
        eq_iff m "ts",
        eq_iff n "tpts",
        eq_iff m "tpts",
      ))
      (ground (arith, e, f))

-- The state of the numbering: numbers are below the counter, those of built-in predicates are the
-- built-in ones, and no two predicates have the same.
pub record Numbered (find : String × ℕ → Option ℕ) (counter : ℕ) : Type 0 where
  pub low : 3 ≤ counter
  pub below : (k : String × ℕ) (p : ℕ) → find k ≡ some p → p < counter
  pub kind :
      (k : String × ℕ) (p : ℕ)
      → find k ≡ some p
      → (builtin k ≡ some p) ⊎ ((builtin k ≡ none) × (3 ≤ p))
  pub one : (k j : String × ℕ) (p : ℕ) → find k ≡ some p → find j ≡ some p → k ≡ j

module _ (eq : Discrete (String × ℕ)) (find find2 : String × ℕ → Option ℕ) (k : String × ℕ) where
  found :
      (p q : ℕ) (j : String × ℕ)
      → find2 j ≡ ite (eq k j) (some p) (find j)
      → find2 j ≡ some q
      → ((k ≡ j) × (p ≡ q)) ⊎ (find j ≡ some q)
  found p q j g e = elim (eq k j) [
    | yes s ↦ inl (s, ground (arith, e, g))
    | no s ↦ inr (ground (arith, e, g))
  ]

  -- A new predicate, with a number that no other has.
  pub Numbered-new :
      (counter next p : ℕ)
      → Numbered find counter
      → ((j : String × ℕ) → find2 j ≡ ite (eq k j) (some p) (find j))
      → counter ≤ next
      → p < next
      → (builtin k ≡ some p) ⊎ ((builtin k ≡ none) × (3 ≤ p))
      → ((j : String × ℕ) → find j ≡ some p → j ≡ k)
      → Numbered find2 next
  Numbered-new counter next p n g up lt is fresh = record {
    low = omega (arith, n.low);
    below = λ j q e. elim (found p q j (g j) e) [
      | inl (s, t) ↦ omega arith
      | inr f ↦ omega (arith, n.below j q f)
    ];
    kind = λ j q e. elim (found p q j (g j) e) [
      | inl (s, t) ↦
          subst (λ (i : String × ℕ). (builtin i ≡ some q) ⊎ ((builtin i ≡ none) × (3 ≤ q))) s
            (subst (λ r. (builtin k ≡ some r) ⊎ ((builtin k ≡ none) × (3 ≤ r))) t is)
      | inr f ↦ n.kind j q f
    ];
    one = λ i j q e f. elim (found p q i (g i) e) [
      | inl (s, t) ↦ elim (found p q j (g j) f) [
        | inl (u, v) ↦ sym s ∙ u
        | inr v ↦ sym s ∙ sym (fresh j (v ∙ ap some (sym t)))
      ]
      | inr u ↦ elim (found p q j (g j) f) [
        | inl (s, t) ↦ fresh i (u ∙ ap some (sym t)) ∙ s
        | inr v ↦ n.one i j q u v
      ]
    ];
  }

  -- A predicate that is there already.
  pub Numbered-old :
      (counter p : ℕ)
      → Numbered find counter
      → find k ≡ some p
      → ((j : String × ℕ) → find2 j ≡ ite (eq k j) (some p) (find j))
      → Numbered find2 counter
  Numbered-old counter p n h g =
      Numbered-new counter counter p n g (omega arith) (n.below k p h) (n.kind k p h)
        (λ j e. n.one j k p e h)
