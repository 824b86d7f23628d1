-- ===== src/Formula/Equality/Meaning.antt =====
-- src/formula.cpp: the comparison of formulas is equality up to what it does not look at.
use cppmon.Shared.{
  ℕ, ◌≡◌, ◌↔◌, refl, sym, ap, ap₂, ◌∙◌, Bool, true, false, ◌&&◌, List, [], ◌∷◌, arith, All,
  if◌then◌else◌,
}
use cppmon.Interval
use cppmon.Interval.{Interval}
use cppmon.EventData.{Double, EventData}
use cppmon.EventData.Order.{NoFloat, equals_iff}
use cppmon.Term.{Term}
use cppmon.Term.Equality.{NoFloats, equals_term_iff}
use cppmon.Formula.{
  AggType, agg_cnt, agg_min, agg_max, agg_sum, agg_avg, agg_med, Formula, pred_t, less_t, less_eq_t,
  eq_t, or_t, and_t, exists_t, prev_t, next_t, since_t, until_t, neg_t, agg_t, let_t,
}
use cppmon.Formula.Equality.{same_type, same_args, equals}

-- An interval without an upper end, with the upper end 0.
abbrev pub normal_inter : Interval → Interval
normal_inter i = record { l = i.l; u = if i.bounded then i.u else 0; bounded = i.bounded }

-- A formula without what the comparison ignores: whether a predicate was written as a built-in one,
-- and the upper end of an interval that has none.
abbrev pub normal : {E : Type 0} → Formula E → Formula E
normal (pred_t p args b) = pred_t p args false
normal (eq_t l r) = eq_t l r
normal (less_t l r) = less_t l r
normal (less_eq_t l r) = less_eq_t l r
normal (neg_t phi) = neg_t (normal phi)
normal (exists_t phi) = exists_t (normal phi)
normal (or_t l r) = or_t (normal l) (normal r)
normal (and_t l r) = and_t (normal l) (normal r)
normal (prev_t i phi) = prev_t (normal_inter i) (normal phi)
normal (next_t i phi) = next_t (normal_inter i) (normal phi)
normal (since_t i l r) = since_t (normal_inter i) (normal l) (normal r)
normal (until_t i l r) = until_t (normal_inter i) (normal l) (normal r)
normal (agg_t ty y b d t phi) = agg_t ty y b d t (normal phi)
normal (let_t p phi psi) = let_t p (normal phi) (normal psi)

inter_parts :
    (a b c d : ℕ) (x y : Bool)
    → a ≡ c
    → b ≡ d
    → x ≡ y
    → Path Interval (record { l = a; u = b; bounded = x }) (record { l = c; u = d; bounded = y })
inter_parts a b c d x y e f g = cc

inter_sound : (i j : Interval) → Interval.equals i j ≡ true → normal_inter i ≡ normal_inter j
unfolding Interval.equals
inter_sound i j h =
    inter_parts _ _ _ _ _ _ (ground (arith, h)) (ground (arith, h)) (ground (arith, h))

inter_complete : (i j : Interval) → normal_inter i ≡ normal_inter j → Interval.equals i j ≡ true
unfolding Interval.equals
inter_complete i j e = ground (
  arith,
  ap (λ (k : Interval). k.l) e,
  ap (λ (k : Interval). k.u) e,
  ap (λ (k : Interval). k.bounded) e,
)

type_self : (D : Double) (t : AggType) → same_type D t t ≡ true
unfolding same_type
type_self D agg_cnt = refl
type_self D agg_min = refl
type_self D agg_max = refl
type_self D agg_sum = refl
type_self D agg_avg = refl
type_self D agg_med = refl

inter-normal :
    (i j : Interval) → Interval.equals i j ≡ Interval.equals (normal_inter i) (normal_inter j)
unfolding Interval.equals
inter-normal i j = ground arith

type_sound : (D : Double) (s t : AggType) → same_type D s t ≡ true → s ≡ t
unfolding same_type
type_sound D agg_cnt agg_cnt h = refl
type_sound D agg_min agg_min h = refl
type_sound D agg_max agg_max h = refl
type_sound D agg_sum agg_sum h = refl
type_sound D agg_avg agg_avg h = refl
type_sound D agg_med agg_med h = refl
type_sound D _ _ h = absurd (cc)

ap_three :
    {A B C R : Type 0} (f : A → B → C → R) {a x : A} {b y : B} {c z : C}
    → a ≡ x
    → b ≡ y
    → c ≡ z
    → f a b c ≡ f x y z
ap_three f p q r = cc

agg_parts :
    {E : Type 0} {ty ty2 : AggType} {y y2 b b2 : ℕ} {d d2 : E} {t t2 : Term E} {phi psi : Formula E}
    → ty ≡ ty2
    → y ≡ y2
    → b ≡ b2
    → d ≡ d2
    → t ≡ t2
    → phi ≡ psi
    → agg_t ty y b d t phi ≡ agg_t ty2 y2 b2 d2 t2 psi
agg_parts p q r e f g = cc

module _ (D : Double) where
  -- No constant of the formula is a double.
  abbrev pub FloatFree : Formula (EventData D) → Type 0
  FloatFree (pred_t p args b) = All (NoFloats D) args
  FloatFree (eq_t l r) = NoFloats D l × NoFloats D r
  FloatFree (less_t l r) = NoFloats D l × NoFloats D r
  FloatFree (less_eq_t l r) = NoFloats D l × NoFloats D r
  FloatFree (neg_t phi) = FloatFree phi
  FloatFree (exists_t phi) = FloatFree phi
  FloatFree (or_t l r) = FloatFree l × FloatFree r
  FloatFree (and_t l r) = FloatFree l × FloatFree r
  FloatFree (prev_t i phi) = FloatFree phi
  FloatFree (next_t i phi) = FloatFree phi
  FloatFree (since_t i l r) = FloatFree l × FloatFree r
  FloatFree (until_t i l r) = FloatFree l × FloatFree r
  FloatFree (agg_t ty y b d t phi) = NoFloat D d × (NoFloats D t × FloatFree phi)
  FloatFree (let_t p phi psi) = FloatFree phi × FloatFree psi

  args_sound :
      (ss ts : List (Term (EventData D))) → All (NoFloats D) ss → same_args D ss ts ≡ true → ss ≡ ts
  unfolding same_args
  args_sound [] [] n h = refl
  args_sound (s ∷ ss) (t ∷ ts) n h =
      ap₂ ◌∷◌ ((equals_term_iff D s t n.0).0 (ground (arith, h)))
        (args_sound ss ts n.1 (ground (arith, h)))
  args_sound _ _ n h = absurd (cc)

  pub equals_sound :
      (phi psi : Formula (EventData D))
      → FloatFree phi
      → equals D phi psi ≡ true
      → normal phi ≡ normal psi
  unfolding equals
  equals_sound (pred_t p args b) (pred_t q args2 c) n h =
      ap₂ (λ k ts. pred_t k ts false) (ground (arith, h))
        (args_sound args args2 n (ground (arith, h)))
  equals_sound (eq_t l r) (eq_t m s) n h =
      ap₂ eq_t ((equals_term_iff D l m n.0).0 (ground (arith, h)))
        ((equals_term_iff D r s n.1).0 (ground (arith, h)))
  equals_sound (less_t l r) (less_t m s) n h =
      ap₂ less_t ((equals_term_iff D l m n.0).0 (ground (arith, h)))
        ((equals_term_iff D r s n.1).0 (ground (arith, h)))
  equals_sound (less_eq_t l r) (less_eq_t m s) n h =
      ap₂ less_eq_t ((equals_term_iff D l m n.0).0 (ground (arith, h)))
        ((equals_term_iff D r s n.1).0 (ground (arith, h)))
  equals_sound (neg_t phi) (neg_t psi) n h = ap neg_t (equals_sound phi psi n h)
  equals_sound (exists_t phi) (exists_t psi) n h = ap exists_t (equals_sound phi psi n h)
  equals_sound (or_t l r) (or_t m s) n h =
      ap₂ or_t (equals_sound l m n.0 (ground (arith, h))) (equals_sound r s n.1 (ground (arith, h)))
  equals_sound (and_t l r) (and_t m s) n h =
      ap₂ and_t (equals_sound l m n.0 (ground (arith, h)))
        (equals_sound r s n.1 (ground (arith, h)))
  equals_sound (prev_t i phi) (prev_t j psi) n h =
      ap₂ prev_t (inter_sound i j (ground (arith, h))) (equals_sound phi psi n (ground (arith, h)))
  equals_sound (next_t i phi) (next_t j psi) n h =
      ap₂ next_t (inter_sound i j (ground (arith, h))) (equals_sound phi psi n (ground (arith, h)))
  equals_sound (since_t i l r) (since_t j m s) n h =
      ap_three since_t (inter_sound i j (ground (arith, h)))
        (equals_sound l m n.0 (ground (arith, h))) (equals_sound r s n.1 (ground (arith, h)))
  equals_sound (until_t i l r) (until_t j m s) n h =
      ap_three until_t (inter_sound i j (ground (arith, h)))
        (equals_sound l m n.0 (ground (arith, h))) (equals_sound r s n.1 (ground (arith, h)))
  equals_sound (let_t p phi psi) (let_t q phi2 psi2) n h =
      ap_three let_t (ground (arith, h)) (equals_sound phi phi2 n.0 (ground (arith, h)))
        (equals_sound psi psi2 n.1 (ground (arith, h)))
  equals_sound (agg_t ty y b d t phi) (agg_t ty2 y2 b2 d2 t2 psi) n h =
      agg_parts (type_sound D ty ty2 (ground (arith, h))) (ground (arith, h)) (ground (arith, h))
        ((equals_iff D d d2 n.0).0 (ground (arith, h)))
        ((equals_term_iff D t t2 n.1.0).0 (ground (arith, h)))
        (equals_sound phi psi n.1.1 (ground (arith, h)))
  equals_sound _ _ n h = absurd (cc)

  args_self : (ss : List (Term (EventData D))) → All (NoFloats D) ss → same_args D ss ss ≡ true
  unfolding same_args
  args_self [] n = refl
  args_self (s ∷ ss) n = rw (args_self ss n.1, (equals_term_iff D s s n.0).1 refl) refl

  pub equals_self : (phi : Formula (EventData D)) → FloatFree phi → equals D phi phi ≡ true
  unfolding equals
  equals_self (pred_t p args b) n = ground (arith, args_self args n)
  equals_self (eq_t l r) n = ground (arith, equals_term_iff D l l n.0, equals_term_iff D r r n.1)
  equals_self (less_t l r) n = ground (arith, equals_term_iff D l l n.0, equals_term_iff D r r n.1)
  equals_self (less_eq_t l r) n =
      ground (arith, equals_term_iff D l l n.0, equals_term_iff D r r n.1)
  equals_self (neg_t phi) n = equals_self phi n
  equals_self (exists_t phi) n = equals_self phi n
  equals_self (or_t l r) n = ground (arith, equals_self l n.0, equals_self r n.1)
  equals_self (and_t l r) n = ground (arith, equals_self l n.0, equals_self r n.1)
  equals_self (prev_t i phi) n = ground (arith, inter_complete i i refl, equals_self phi n)
  equals_self (next_t i phi) n = ground (arith, inter_complete i i refl, equals_self phi n)
  equals_self (since_t i l r) n =
      ground (arith, inter_complete i i refl, equals_self l n.0, equals_self r n.1)
  equals_self (until_t i l r) n =
      ground (arith, inter_complete i i refl, equals_self l n.0, equals_self r n.1)
  equals_self (agg_t ty y b d t phi) n = ground (
    arith,
    type_self D ty,
    equals_iff D d d n.0,
    equals_term_iff D t t n.1.0,
    equals_self phi n.1.1,
  )
  equals_self (let_t p phi psi) n = ground (arith, equals_self phi n.0, equals_self psi n.1)

  -- The comparison does not tell a formula from its normal form.
  normal-equals :
      (phi psi : Formula (EventData D)) → equals D phi psi ≡ equals D (normal phi) (normal psi)
  unfolding equals
  normal-equals (pred_t p args b) (pred_t q args2 c) = refl
  normal-equals (eq_t l r) (eq_t m s) = refl
  normal-equals (less_t l r) (less_t m s) = refl
  normal-equals (less_eq_t l r) (less_eq_t m s) = refl
  normal-equals (neg_t phi) (neg_t psi) = normal-equals phi psi
  normal-equals (exists_t phi) (exists_t psi) = normal-equals phi psi
  normal-equals (or_t l r) (or_t m s) = ap₂ ◌&&◌ (normal-equals l m) (normal-equals r s)
  normal-equals (and_t l r) (and_t m s) = ap₂ ◌&&◌ (normal-equals l m) (normal-equals r s)
  normal-equals (prev_t i phi) (prev_t j psi) = ap₂ ◌&&◌ (inter-normal i j) (normal-equals phi psi)
  normal-equals (next_t i phi) (next_t j psi) = ap₂ ◌&&◌ (inter-normal i j) (normal-equals phi psi)
  normal-equals (since_t i l r) (since_t j m s) =
      ap₂ ◌&&◌ (ap₂ ◌&&◌ (inter-normal i j) (normal-equals l m)) (normal-equals r s)
  normal-equals (until_t i l r) (until_t j m s) =
      ap₂ ◌&&◌ (ap₂ ◌&&◌ (inter-normal i j) (normal-equals l m)) (normal-equals r s)
  normal-equals (agg_t ty y b d t phi) (agg_t ty2 y2 b2 d2 t2 psi) =
      ap₂ ◌&&◌ refl (normal-equals phi psi)
  normal-equals (let_t p phi psi) (let_t q phi2 psi2) =
      ap₂ ◌&&◌ (ap₂ ◌&&◌ refl (normal-equals phi phi2)) (normal-equals psi psi2)
  normal-equals _ _ = refl

  -- A formula without doubles compares equal to another exactly when the two are the same up to
  -- the mark of built-in predicates and the upper ends of intervals that have none.
  pub equals-normal :
      (phi psi : Formula (EventData D))
      → FloatFree phi
      → (equals D phi psi ≡ true) ↔ (normal phi ≡ normal psi)
  equals-normal phi psi n = (
    equals_sound phi psi n,
    λ e.
        normal-equals phi psi
        ∙ ap (equals D (normal phi)) (sym e)
        ∙ sym (normal-equals phi phi)
        ∙ equals_self phi n,
  )
