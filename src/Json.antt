-- ===== src/Json.antt =====
-- The JSON library that the program reads its formulas with (nlohmann::json), by its documented
-- behaviour, and results of reading. `at` and `get` throw on a value of the wrong type and on an
-- index past the end: none.
use Prim.Native.String.{String}
use cppmon.Shared.{
  ℕ, ◌<◌, ◌≡◌, ◌≢◌, refl, Bool, true, Option, none, some, List, if◌then◌else◌, false, In, ◌≤◌,
}
use cppmon.Interval.{size_t_mod}
use cppmon.EventData.{Double}
use cppmon.Term.{get_elem?}

pub record Json (D : Double) : Type 1 where
  pub Carrier : Type 0
  pub is_array : Carrier → Bool
  pub at : ℕ → Carrier → Option Carrier
  pub elements : Carrier → List Carrier
  pub get_string : Carrier → Option String
  pub get_size : Carrier → Option ℕ
  pub get_int : Carrier → Option ℕ
  pub get_double : Carrier → Option D.Carrier
  -- How deep the value is nested.
  pub depth : Carrier → ℕ
  pub at-depth : (i : ℕ) (j c : Carrier) → at i j ≡ some c → depth c < depth j
  pub elements-depth : (j c : Carrier) → In c (elements j) → depth c ≤ depth j
  -- The values that a document can hold.
  pub array : List Carrier → Carrier
  pub of_string : String → Carrier
  pub of_size : ℕ → Carrier
  pub of_int : ℕ → Carrier
  pub of_double : D.Carrier → Carrier
  pub is_array-array : (xs : List Carrier) → is_array (array xs) ≡ true
  pub at-array : (i : ℕ) (xs : List Carrier) → at i (array xs) ≡ get_elem? xs i
  pub elements-array : (xs : List Carrier) → elements (array xs) ≡ xs
  pub get_string-of_string : (s : String) → get_string (of_string s) ≡ some s
  pub get_size-of_size : (n : ℕ) → n < size_t_mod → get_size (of_size n) ≡ some n
  pub get_int-of_int : (n : ℕ) → n < size_t_mod → get_int (of_int n) ≡ some n
  pub get_double-of_double : (d : D.Carrier) → get_double (of_double d) ≡ some d

-- A reader returns a value or throws; the model's readers can run out of fuel.
pub data Read (A : Type 0) : Type 0 where
  ok : A → Read A
  thrown : Read A
  out_of_fuel : Read A

abbrev pub and_then : {A B : Type 0} → Read A → (A → Read B) → Read B
and_then (ok a) f = f a
and_then thrown f = thrown
and_then out_of_fuel f = out_of_fuel

abbrev pub or_throw : {A : Type 0} → Option A → Read A
or_throw none = thrown
or_throw (some a) = ok a

-- The reader did not run out of fuel.
abbrev pub Reads : {A : Type 0} → Read A → Type 0
Reads r = r ≢ out_of_fuel

module _ {A : Type 0} where
  pub ok-Reads : (a : A) → Reads (ok a)
  ok-Reads a = λ e. absurd (cc)

  pub thrown-Reads : Reads {A = A} thrown
  thrown-Reads = λ e. absurd (cc)

  pub or_throw-Reads : (o : Option A) → Reads (or_throw o)
  or_throw-Reads none = λ e. absurd (cc)
  or_throw-Reads (some a) = λ e. absurd (cc)

  pub if-Reads : (b : Bool) (r s : Read A) → Reads r → Reads s → Reads (if b then r else s)
  if-Reads true r s h k = h
  if-Reads false r s h k = k

module _ {A B : Type 0} where
  pub and_then-Reads :
      (r : Read A) (f : A → Read B) → Reads r → ((a : A) → Reads (f a)) → Reads (and_then r f)
  and_then-Reads (ok a) f n h = h a
  and_then-Reads thrown f n h = λ e. absurd (cc)
  and_then-Reads out_of_fuel f n h = absurd (n refl)

  pub throw_or-Reads :
      (o : Option A) (f : A → Read B)
      → ((a : A) → o ≡ some a → Reads (f a))
      → Reads (and_then (or_throw o) f)
  throw_or-Reads none f h = λ e. absurd (cc)
  throw_or-Reads (some a) f h = h a refl
