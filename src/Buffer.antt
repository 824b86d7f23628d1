-- ===== src/Buffer.antt =====
-- src/common/buffers.h: `binary_buffer`, which pairs up two streams that arrive in batches. The
-- reduction may change the state of its caller: it is a function of that state, and the calls are
-- made in order.
pub mod Streams
use cppmon.Shared.{Bool, true, false, not, ◌&&◌, List, [], ◌∷◌, ◌++◌, if◌then◌else◌}

pub record BinaryBuffer (A : Type 0) : Type 0 where
  pub buf : List A
  pub is_l : Bool

-- What a loop over two ranges leaves: the results, the rest of both ranges, and the state.
pub record Reduced (A R St : Type 0) : Type 0 where
  pub res : List R
  pub rest1 : List A
  pub rest2 : List A
  pub state : St

unfoldable pub is_nil {ℓ} : {A : Type ℓ} → List A → Bool
is_nil [] = true
is_nil (x ∷ xs) = false

module _ {A : Type 0} where
  unfoldable pub init : BinaryBuffer A
  init = record { buf = []; is_l = false }

  -- The end of update_and_reduce: what is left of the first range is kept, or of the second, with
  -- the side changed, when the first range and the buffer are used up.
  unfoldable pub keep_rest : Bool → List A → List A → List A → BinaryBuffer A
  unfolding is_nil
  keep_rest is_l buf it1 it2 =
      if is_nil it1 && is_nil buf
      then record { buf = buf ++ it2; is_l = not is_l }
      else record { buf = buf ++ it1; is_l = is_l }

module _ {A R St : Type 0} (f : A → A → St → R × St) where
  -- The left stream's element is the first argument.
  unfoldable pub call : Bool → A → A → St → R × St
  call is_l x y s = if is_l then f x y s else f y x s

  -- The two loops of update_and_reduce, which run until one of their ranges ends.
  unfoldable pub reduce_pairs : Bool → List A → List A → St → Reduced A R St
  unfolding call
  reduce_pairs is_l [] ys s = record { res = []; rest1 = []; rest2 = ys; state = s }
  reduce_pairs is_l (x ∷ xs) [] s = record { res = []; rest1 = x ∷ xs; rest2 = []; state = s }
  reduce_pairs is_l (x ∷ xs) (y ∷ ys) s =
      let (r, s') = call is_l x y s in
      let rest = reduce_pairs is_l xs ys s' in record rest { res = r ∷ rest.res }

  unfoldable pub update_and_reduce :
      BinaryBuffer A → List A → List A → St → List R × BinaryBuffer A × St
  unfolding reduce_pairs keep_rest
  update_and_reduce b new_l new_r s =
      let it1 = if b.is_l then new_l else new_r in
      let it2 = if b.is_l then new_r else new_l in
      let drained = reduce_pairs b.is_l b.buf it2 s in
      let paired = reduce_pairs b.is_l it1 drained.rest2 drained.state in
      (
        drained.res ++ paired.res,
        keep_rest b.is_l drained.rest1 paired.rest1 paired.rest2,
        paired.state,
      )
