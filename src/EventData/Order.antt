-- ===== src/EventData/Order.antt =====
-- src/common/event_data.cpp: the comparisons.
use cppmon.Shared.{◌≡◌, ◌↔◌, refl, subst, ◌≢◌, ap, true, false, arith}
use Prim.Native.String.{String}
use text.Mathlib.TextEquality.{eq_iff}
use cppmon.EventData.{Double, EventData, int, float, string, equals, leq, less, greater}

module _ (D : Double) where
  -- A value that is no double: comparing a NaN with itself gives false.
  abbrev pub NoFloat : EventData D → Type 0
  NoFloat (float d) = ⊥
  NoFloat _ = Unit

  equals_sound : (a b : EventData D) → NoFloat a → equals D a b ≡ true → a ≡ b
  unfolding equals
  equals_sound (int i) (int j) n h = ap {B = EventData D} int (ground arith)
  equals_sound (string s) (string t) n h = ap {B = EventData D} string ((eq_iff s t).0 h)
  equals_sound (float d) b n h = absurd n
  equals_sound _ _ n h = absurd (cc)

  equals_self : (a : EventData D) → NoFloat a → equals D a a ≡ true
  unfolding equals
  equals_self (int i) n = ground arith
  equals_self (string s) n = (eq_iff s s).1 refl
  equals_self (float d) n = absurd n

  -- Two values of which the first is no double compare equal exactly when they are equal.
  pub equals_iff : (a b : EventData D) → NoFloat a → (equals D a b ≡ true) ↔ (a ≡ b)
  equals_iff a b n =
      (λ h. equals_sound a b n h, λ e. subst (λ c. equals D a c ≡ true) e (equals_self a n))

  -- The result of a comparison is decided by `<=`, both ways, whatever the values: `<` is
  -- asymmetric, and `>` holds whenever `<` holds the other way round.
  pub less-greater :
      (a b : EventData D)
      → less D a b ≡ true
      → (less D b a ≡ false) × (greater D b a ≡ true) × (leq D a b ≡ true)
  unfolding less greater
  less-greater a b h = ground arith

  -- A string and a number are above each other: both comparisons with `>` give true, and both
  -- comparisons with `<` give false.
  pub greater-incomparable :
      (s : String) (b : EventData D)
      → ((t : String) → b ≢ string t)
      → (greater D (string s) b ≡ true)
        × (greater D b (string s) ≡ true)
        × (less D (string s) b ≡ false)
        × (less D b (string s) ≡ false)
  unfolding greater less leq
  greater-incomparable s (int i) n = (refl, refl, refl, refl)
  greater-incomparable s (float d) n = (refl, refl, refl, refl)
  greater-incomparable s (string t) n = absurd (n t refl)
