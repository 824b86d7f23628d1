-- ===== src/Tests/Documents.antt =====
-- A concrete instance of the doubles and of the JSON library.
use Prim.Native.String.{String}
use cppmon.Shared.{
  ℕ, zero, suc, ◌+◌, ◌-◌, ◌*◌, ◌/◌, ◌%◌, ap, ◌≤◌, ◌<◌, max, ◌≡◌, refl, inl, inr, subst, Bool, true,
  false, Option, none, some, List, [], ◌∷◌, leb, ◌==◌, In, arith,
}
use cppmon.EventData.{Double}
use cppmon.Json.{Json}
use cppmon.Term.{get_elem?}

-- Whole numbers, with NaN as none.
abbrev both : (ℕ → ℕ → ℕ) → Option ℕ → Option ℕ → Option ℕ
both f (some a) (some b) = some (f a b)
both f _ _ = none

abbrev test : (ℕ → ℕ → Bool) → Option ℕ → Option ℕ → Bool
test f (some a) (some b) = f a b
test f _ _ = false

abbrev to_whole : Option ℕ → ℕ
to_whole none = 0
to_whole (some a) = a % 18446744073709551616

abbrev pub whole : Double
whole = record {
  Carrier = Option ℕ;
  of_int = λ n. some n;
  of_size = λ n. some n;
  to_int = to_whole;
  add = both (λ a b. a + b);
  sub = both (λ a b. a - b);
  mul = both (λ a b. a * b);
  div = both (λ a b. a / b);
  neg = λ d. d;
  eq = test (λ a b. a == b);
  leq = test (λ a b. leb a b);
  nan = none;
}

-- A document; an array is a chain of cells.
pub data Tree : Type 0 where
  text : String → Tree
  size : ℕ → Tree
  int : ℕ → Tree
  double : Option ℕ → Tree
  end : Tree
  cell : Tree → Tree → Tree

abbrev tree_is_array : Tree → Bool
tree_is_array end = true
tree_is_array (cell a b) = true
tree_is_array _ = false

abbrev tree_at : ℕ → Tree → Option Tree
tree_at zero (cell a b) = some a
tree_at (suc i) (cell a b) = tree_at i b
tree_at _ _ = none

abbrev cells : Tree → List Tree
cells (cell a b) = a ∷ cells b
cells _ = []

abbrev tree_elements : Tree → List Tree
tree_elements (cell a b) = a ∷ cells b
tree_elements end = []
tree_elements t = t ∷ []

abbrev get_text : Tree → Option String
get_text (text s) = some s
get_text _ = none

abbrev get_whole : Tree → Option ℕ
get_whole (size n) = some n
get_whole _ = none

abbrev get_number : Tree → Option ℕ
get_number (int n) = some n
get_number _ = none

abbrev get_real : Tree → Option (Option ℕ)
get_real (double d) = some d
get_real _ = none

abbrev depth : Tree → ℕ
depth (cell a b) = max (suc (depth a)) (depth b)
depth _ = 0

abbrev chain : List Tree → Tree
chain [] = end
chain (x ∷ xs) = cell x (chain xs)

pub at-depth : (i : ℕ) (j c : Tree) → tree_at i j ≡ some c → depth c < depth j
at-depth zero (cell a b) c e = omega (arith, some_injective e)
  where
    some_injective : some a ≡ some c → depth a ≡ depth c
    some_injective e = cc
at-depth (suc i) (cell a b) c e = omega (arith, at-depth i b c e)
at-depth zero _ c e = absurd (cc)
at-depth (suc i) _ c e = absurd (cc)

cells-depth : (j c : Tree) → In c (cells j) → depth c < depth j
cells-depth (cell a b) c (inl e) = subst (λ k. depth k < depth (cell a b)) e (omega arith)
cells-depth (cell a b) c (inr i) = omega (arith, cells-depth b c i)
cells-depth _ c i = absurd i

pub elements-depth : (j c : Tree) → In c (tree_elements j) → depth c ≤ depth j
elements-depth (cell a b) c i = omega (arith, cells-depth (cell a b) c i)
elements-depth end c i = absurd i
elements-depth j c (inl e) = subst (λ k. depth k ≤ depth j) e (omega arith)
elements-depth j c (inr i) = absurd i

pub chain-at : (i : ℕ) (xs : List Tree) → tree_at i (chain xs) ≡ get_elem? xs i
chain-at zero [] = refl
chain-at (suc i) [] = refl
chain-at zero (x ∷ xs) = refl
chain-at (suc i) (x ∷ xs) = chain-at i xs

pub chain-is_array : (xs : List Tree) → tree_is_array (chain xs) ≡ true
chain-is_array [] = refl
chain-is_array (x ∷ xs) = refl

chain-cells : (xs : List Tree) → cells (chain xs) ≡ xs
chain-cells [] = refl
chain-cells (x ∷ xs) = ap (λ l. x ∷ l) (chain-cells xs)

pub chain-elements : (xs : List Tree) → tree_elements (chain xs) ≡ xs
chain-elements [] = refl
chain-elements (x ∷ xs) = ap (λ l. x ∷ l) (chain-cells xs)

abbrev pub trees : Json whole
trees = record {
  Carrier = Tree;
  is_array = tree_is_array;
  at = tree_at;
  elements = tree_elements;
  get_string = get_text;
  get_size = get_whole;
  get_int = get_number;
  get_double = get_real;
  depth = depth;
  at-depth = at-depth;
  elements-depth = elements-depth;
  array = chain;
  of_string = text;
  of_size = size;
  of_int = int;
  of_double = double;
  is_array-array = chain-is_array;
  at-array = chain-at;
  elements-array = chain-elements;
  get_string-of_string = λ s. refl;
  get_size-of_size = λ n lt. refl;
  get_int-of_int = λ n lt. refl;
  get_double-of_double = λ d. refl;
}
