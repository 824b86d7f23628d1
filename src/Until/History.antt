-- ===== src/Until/History.antt =====
-- src/until_impl.cpp: the history of the calls, what its results should be, and what holds of the state.
use cppmon.Shared.{
  ℕ, suc, ◌+◌, ◌-◌, ◌≤◌, ◌<◌, ◌≡◌, ◌↔◌, ◌⊎◌, inl, inr, subst, Bool, true, false, List, [], ◌∷◌,
  ◌++◌, arith, dec_lt, length,
}
use cppmon.Hash.{HashSet}
use cppmon.Interval.{Interval, leq_upper, is_bounded, size_t_mod}
use cppmon.Interval
use cppmon.Table.{OptTable}
use cppmon.Table.Contents.{Holds}
use cppmon.Until.{erase_cond}

-- The mark that a table leaves on its rows, by whether the interval contains 0.
abbrev pub key : Bool → ℕ → ℕ → ℕ → ℕ
key true lower j u = j
key false lower j u = u - (lower - 1)

-- A mark that the result for the time point with number `first` and timestamp t needs.
abbrev pub Wants : Bool → ℕ → ℕ → ℕ → Type 0
Wants true first t v = first ≤ v
Wants false first t v = t < v

pub erase_cond-Wants :
    (cz : Bool) (first t v : ℕ) → (erase_cond cz first t v ≡ false) ↔ Wants cz first t v
unfolding erase_cond
erase_cond-Wants true first t v = ground arith
erase_cond-Wants false first t v = ground arith

pub Wants-up : (cz : Bool) (first t v w : ℕ) → v ≤ w → Wants cz first t v → Wants cz first t w
Wants-up true first t v w le h = omega arith
Wants-up false first t v w le h = omega arith

pub Wants-back :
    (cz : Bool) (first t u v : ℕ) → t ≤ u → Wants cz (suc first) u v → Wants cz first t v
Wants-back true first t u v le h = omega arith
Wants-back false first t u v le h = omega arith

pub leq_upper_down :
    (inter : Interval) (a b : ℕ) → a ≤ b → leq_upper inter b ≡ true → leq_upper inter a ≡ true
unfolding leq_upper is_bounded
leq_upper_down inter a b le h = ground arith

pub leq_upper_zero : (inter : Interval) → leq_upper inter 0 ≡ true
unfolding leq_upper is_bounded
leq_upper_zero inter = ground arith

pub contains_parts :
    (inter : Interval) (n : ℕ)
    → (Interval.contains inter n ≡ true) ↔ ((inter.l ≤ n) × (leq_upper inter n ≡ true))
unfolding Interval.contains leq_upper is_bounded
contains_parts inter n = ground arith

pub lower_pos : (inter : Interval) → Interval.contains inter 0 ≡ false → 0 < inter.l
lower_pos inter e = ground (arith, contains_parts inter 0, leq_upper_zero inter)

-- What a mark says of the age, for a table at a time point from the i-th on.
pub Wants-age :
    (inter : Interval) (i t j u : ℕ) (cz : Bool)
    → Interval.contains inter 0 ≡ cz
    → (j < i → u ≤ t)
    → (i ≤ j → t ≤ u)
    → Wants cz i t (key cz inter.l j u) ↔ ((i ≤ j) × (t ≤ u) × (inter.l ≤ u - t))
Wants-age inter i t j u true e f g =
    (λ h. (h, g h, omega (arith, ((contains_parts inter 0).0 e).0)), λ (h, k, m). h)
Wants-age inter i t j u false e f g = elim (dec_lt j i) [
  | yes lt ↦ (
    λ h. absurd (omega (arith, f lt, lower_pos inter e)),
    λ (h, k, m). omega (arith, lower_pos inter e),
  )
  | no ge ↦ (
    λ h. (omega arith, g (omega arith), omega (arith, lower_pos inter e)),
    λ (h, k, m). omega (arith, lower_pos inter e),
  )
]

module _ {T : Type 0} (S : HashSet (List T)) where
  -- The tables that came, with their timestamps, newest first.
  abbrev pub History : Type 0
  History = List (ℕ × OptTable S)

  -- The table `tab` came with the timestamp t as the i-th one.
  abbrev pub Point : ℕ → ℕ → OptTable S → History → Type 0
  Point i t tab [] = ⊥
  Point i t tab ((u, b) ∷ h) = ((length h ≡ i) × (u ≡ t) × (b ≡ tab)) ⊎ Point i t tab h

  pub Point-below : (i t : ℕ) (tab : OptTable S) (h : History) → Point i t tab h → i < length h
  Point-below i t tab [] p = absurd p
  Point-below i t tab ((u, b) ∷ h) (inl p) = omega (arith, p.0)
  Point-below i t tab ((u, b) ∷ h) (inr p) = omega (arith, Point-below i t tab h p)

  module _ (inter : Interval) where
    -- The row e is in a table that came at or after the i-th one, at an age in the interval from t.
    abbrev pub Eventually : ℕ → ℕ → List T → History → Type 0
    Eventually i t e h =
        (j : ℕ) × (u : ℕ) × (b : OptTable S) × Point j u b h
        × (i ≤ j)
        × (t ≤ u)
        × (Interval.contains inter (u - t) ≡ true)
        × Holds S e b

    -- The table is the result for the i-th time point.
    abbrev pub Correct : History → ℕ → OptTable S → Type 0
    Correct h i tab =
        (t : ℕ) (b : OptTable S) → Point i t b h → (e : List T) → Holds S e tab ↔ Eventually i t e h

    abbrev pub AllCorrect : History → ℕ → List (OptTable S) → Type 0
    AllCorrect h n [] = Unit
    AllCorrect h n (tab ∷ tabs) = Correct h n tab × AllCorrect h (suc n) tabs

    pub AllCorrect-append :
        (h : History) (n : ℕ) (xs ys : List (OptTable S))
        → AllCorrect h n xs
        → AllCorrect h (n + length xs) ys
        → AllCorrect h n (xs ++ ys)
    AllCorrect-append h n [] ys a b = subst_index b
      where
        subst_index : AllCorrect h (n + 0) ys → AllCorrect h n ys
        subst_index = subst (λ k. AllCorrect h k ys) (omega arith)
    AllCorrect-append h n (x ∷ xs) ys (c, a) b =
        (c, AllCorrect-append h (suc n) xs ys a (subst (λ k. AllCorrect h k ys) (omega arith) b))
