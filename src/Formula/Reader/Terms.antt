-- ===== src/Formula/Reader/Terms.antt =====
-- src/formula.cpp: the terms that a document gives are the ones that were written to it.
use Prim.Native.String.{String}
use cppmon.Shared.{ℕ, zero, suc, ◌≤◌, ◌<◌, ◌≡◌, refl, none, some, List, [], ◌∷◌, max, arith}
use cppmon.Interval.{size_t_mod}
use cppmon.EventData.{Double, EventData, int, float, string}
use cppmon.EventData.Range.{InRange}
use cppmon.Term.{
  Term, var_t, const_t, plus_t, minus_t, uminus_t, mult_t, div_t, mod_t, f2i_t, i2f_t,
}
use cppmon.Formula.Values.{
  TermForm, var_form, const_form, plus_form, minus_form, mult_form, div_form, mod_form, f2i_form,
  i2f_form, term_form, string_at, nat_from_json, data_from_json,
}
use cppmon.Formula.Reader.{term_of, term_from_json}
use cppmon.Json.{Json, Read, ok, thrown, and_then, or_throw}

module _ (D : Double) (J : Json D) where
  -- The format of a document: a form is an array that begins with its name.
  abbrev pub form : String → List J.Carrier → J.Carrier
  form s fields = J.array (J.of_string s ∷ fields)

  abbrev pub write_nat : ℕ → J.Carrier
  write_nat n = form "Nat" (J.of_size n ∷ [])

  abbrev pub write_data : EventData D → J.Carrier
  write_data (int i) = form "EInt" (J.of_int i ∷ [])
  write_data (float d) = form "EFloat" (J.of_double d ∷ [])
  write_data (string s) = form "EString" (J.of_string s ∷ [])

  abbrev pub write_term : Term (EventData D) → J.Carrier
  write_term (var_t i) = form "Var" (write_nat i ∷ [])
  write_term (const_t c) = form "Const" (write_data c ∷ [])
  write_term (plus_t l r) = form "Plus" (write_term l ∷ write_term r ∷ [])
  write_term (minus_t l r) = form "Minus" (write_term l ∷ write_term r ∷ [])
  write_term (uminus_t t) = form "UMinus" (write_term t ∷ [])
  write_term (mult_t l r) = form "Mult" (write_term l ∷ write_term r ∷ [])
  write_term (div_t l r) = form "Div" (write_term l ∷ write_term r ∷ [])
  write_term (mod_t l r) = form "Mod" (write_term l ∷ write_term r ∷ [])
  write_term (f2i_t t) = form "F2i" (write_term t ∷ [])
  write_term (i2f_t t) = form "I2f" (write_term t ∷ [])

  -- The term has no unary minus, and its indices and ints are below 2 ^ 64.
  abbrev pub IsWritable : Term (EventData D) → Type 0
  IsWritable (var_t i) = i < size_t_mod
  IsWritable (const_t c) = InRange D c
  IsWritable (plus_t l r) = IsWritable l × IsWritable r
  IsWritable (minus_t l r) = IsWritable l × IsWritable r
  IsWritable (uminus_t t) = ⊥
  IsWritable (mult_t l r) = IsWritable l × IsWritable r
  IsWritable (div_t l r) = IsWritable l × IsWritable r
  IsWritable (mod_t l r) = IsWritable l × IsWritable r
  IsWritable (f2i_t t) = IsWritable t
  IsWritable (i2f_t t) = IsWritable t

  abbrev pub height : Term (EventData D) → ℕ
  height (var_t i) = 1
  height (const_t c) = 1
  height (plus_t l r) = suc (max (height l) (height r))
  height (minus_t l r) = suc (max (height l) (height r))
  height (uminus_t t) = suc (height t)
  height (mult_t l r) = suc (max (height l) (height r))
  height (div_t l r) = suc (max (height l) (height r))
  height (mod_t l r) = suc (max (height l) (height r))
  height (f2i_t t) = suc (height t)
  height (i2f_t t) = suc (height t)

  height_pos : (t : Term (EventData D)) → 0 < height t
  height_pos (var_t i) = omega arith
  height_pos _ = omega arith

  pub string_at-form :
      (s : String) (fields : List J.Carrier) → string_at D J 0 (form s fields) ≡ ok s
  unfolding string_at
  string_at-form s fields = rw (J.at-array, J.get_string-of_string) refl

  pub nat_from_json-write_nat : (n : ℕ) → n < size_t_mod → nat_from_json D J (write_nat n) ≡ ok n
  unfolding nat_from_json
  nat_from_json-write_nat n lt = rw (string_at-form, J.at-array, J.get_size-of_size n lt) refl

  pub data_from_json-write_data :
      (c : EventData D) → InRange D c → data_from_json D J (write_data c) ≡ ok c
  unfolding data_from_json
  data_from_json-write_data (int i) lt = rw (string_at-form, J.at-array, J.get_int-of_int i lt) refl
  data_from_json-write_data (float d) h =
      rw (string_at-form, J.at-array, J.get_double-of_double) refl
  data_from_json-write_data (string s) h =
      rw (string_at-form, J.at-array, J.get_string-of_string) refl

  -- The reader at a form whose name it knows.
  term_from_json-form :
      (fuel : ℕ) (s : String) (fields : List J.Carrier) (f : TermForm)
      → term_form s ≡ some f
      → term_from_json D J (suc fuel) (form s fields)
        ≡ term_of D J f
            (λ i. and_then (or_throw (J.at i (form s fields))) λ c. term_from_json D J fuel c)
            (form s fields)
  unfolding term_from_json
  term_from_json-form fuel s fields f e = rw (string_at-form, e) refl

  module _ (fuel : ℕ) (s : String) (f : TermForm) (e : term_form s ≡ some f) (a b : J.Carrier)
      (l r : Term (EventData D)) (p : term_from_json D J fuel a ≡ ok l) where
    read_one :
        (k : Term (EventData D) → Term (EventData D))
        → ((sub : ℕ → Read (Term (EventData D))) (j : J.Carrier)
            → term_of D J f sub j ≡ (and_then (sub 1) λ t. ok (k t)))
        → term_from_json D J (suc fuel) (form s (a ∷ [])) ≡ ok (k l)
    read_one k h = rw (term_from_json-form fuel s (a ∷ []) f e, h, J.at-array, p) refl

    read_two :
        (k : Term (EventData D) → Term (EventData D) → Term (EventData D))
        → term_from_json D J fuel b ≡ ok r
        → ((sub : ℕ → Read (Term (EventData D))) (j : J.Carrier)
            → term_of D J f sub j ≡ (and_then (sub 1) λ t. and_then (sub 2) λ u. ok (k t u)))
        → term_from_json D J (suc fuel) (form s (a ∷ b ∷ [])) ≡ ok (k l r)
    read_two k q h =
        rw (term_from_json-form fuel s (a ∷ b ∷ []) f e, h, J.at-array, J.at-array, p, q) refl

  -- A term without unary minus, whose indices and ints are below 2 ^ 64, is read back as it was
  -- written, with any fuel from its height on.
  pub term_from_json-write_term :
      (fuel : ℕ) (t : Term (EventData D))
      → IsWritable t
      → height t ≤ fuel
      → term_from_json D J fuel (write_term t) ≡ ok t
  unfolding term_form term_of
  term_from_json-write_term (suc fuel) (var_t i) w le =
      rw (term_from_json-form fuel "Var" _ var_form refl, J.at-array, nat_from_json-write_nat i w)
        refl
  term_from_json-write_term (suc fuel) (const_t c) w le =
      rw
        (
          term_from_json-form fuel "Const" _ const_form refl,
          J.at-array,
          data_from_json-write_data c w,
        )
        refl
  term_from_json-write_term (suc fuel) (plus_t l r) (wl, wr) le =
      read_two fuel "Plus" plus_form refl _ _ l r
        (term_from_json-write_term fuel l wl (omega arith)) plus_t
        (term_from_json-write_term fuel r wr (omega arith)) (λ sub j. refl)
  term_from_json-write_term (suc fuel) (minus_t l r) (wl, wr) le =
      read_two fuel "Minus" minus_form refl _ _ l r
        (term_from_json-write_term fuel l wl (omega arith)) minus_t
        (term_from_json-write_term fuel r wr (omega arith)) (λ sub j. refl)
  term_from_json-write_term (suc fuel) (mult_t l r) (wl, wr) le =
      read_two fuel "Mult" mult_form refl _ _ l r
        (term_from_json-write_term fuel l wl (omega arith)) mult_t
        (term_from_json-write_term fuel r wr (omega arith)) (λ sub j. refl)
  term_from_json-write_term (suc fuel) (div_t l r) (wl, wr) le =
      read_two fuel "Div" div_form refl _ _ l r (term_from_json-write_term fuel l wl (omega arith))
        div_t (term_from_json-write_term fuel r wr (omega arith)) (λ sub j. refl)
  term_from_json-write_term (suc fuel) (mod_t l r) (wl, wr) le =
      read_two fuel "Mod" mod_form refl _ _ l r (term_from_json-write_term fuel l wl (omega arith))
        mod_t (term_from_json-write_term fuel r wr (omega arith)) (λ sub j. refl)
  term_from_json-write_term (suc fuel) (f2i_t t) w le =
      read_one fuel "F2i" f2i_form refl _ (write_term t) t t
        (term_from_json-write_term fuel t w (omega arith)) f2i_t (λ sub j. refl)
  term_from_json-write_term (suc fuel) (i2f_t t) w le =
      read_one fuel "I2f" i2f_form refl _ (write_term t) t t
        (term_from_json-write_term fuel t w (omega arith)) i2f_t (λ sub j. refl)
  term_from_json-write_term (suc fuel) (uminus_t t) w le = absurd w
  term_from_json-write_term zero t w le = absurd (omega (arith, height_pos t))

  -- A form that the reader does not know.
  pub term_from_json-unknown :
      (fuel : ℕ) (s : String) (fields : List J.Carrier)
      → term_form s ≡ none
      → term_from_json D J (suc fuel) (form s fields) ≡ thrown
  unfolding term_from_json
  term_from_json-unknown fuel s fields e = rw (string_at-form, e) refl

  -- The reader throws on every term that has a unary minus at its top, with any fuel but 0.
  pub term_from_json-uminus :
      (fuel : ℕ) (t : Term (EventData D))
      → term_from_json D J (suc fuel) (write_term (uminus_t t)) ≡ thrown
  unfolding term_form
  term_from_json-uminus fuel t = term_from_json-unknown fuel "UMinus" (write_term t ∷ []) refl
