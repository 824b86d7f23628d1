-- ===== src/Buffer/Streams.antt =====
-- A binary_buffer pairs the two streams element by element, however they are cut into batches.
use cppmon.Shared.{
  ◌≡◌, refl, ap, ◌∙◌, ◌⊎◌, inl, inr, Bool, true, false, List, [], ◌∷◌, ◌++◌, if◌then◌else◌, arith,
}
use cppmon.Buffer.{BinaryBuffer, Reduced, keep_rest, call, reduce_pairs, update_and_reduce}

module _ {A : Type 0} where
  -- The elements of either stream that wait for a partner.
  abbrev pub lefts : BinaryBuffer A → List A
  lefts b = if b.is_l then b.buf else []

  abbrev pub rights : BinaryBuffer A → List A
  rights b = if b.is_l then [] else b.buf

module _ {A R St : Type 0} (f : A → A → St → R × St) where
  -- The specification: both streams whole, paired from the front.
  abbrev pub zip_reduce : List A → List A → St → Reduced A R St
  zip_reduce = reduce_pairs f true

  -- The batches as two streams.
  abbrev pub streams : BinaryBuffer A → List A → List A → St → Reduced A R St
  streams b new_l new_r s = zip_reduce (lefts b ++ new_l) (rights b ++ new_r) s

  -- One run of the second loop with the ranges exchanged is the first with the flag exchanged.
  reduce_pairs-flip :
      (xs ys : List A) (s : St)
      → let o = reduce_pairs f false xs ys s in
        let z = reduce_pairs f true ys xs s in
        (o.res ≡ z.res) × (o.rest1 ≡ z.rest2) × (o.rest2 ≡ z.rest1) × (o.state ≡ z.state)
  unfolding reduce_pairs
  reduce_pairs-flip [] [] s = (refl, refl, refl, refl)
  reduce_pairs-flip [] (y ∷ ys) s = (refl, refl, refl, refl)
  reduce_pairs-flip (x ∷ xs) [] s = (refl, refl, refl, refl)
  reduce_pairs-flip (x ∷ xs) (y ∷ ys) s =
      let (a, b, c, d) = reduce_pairs-flip xs ys (f y x s).1 in (ap (◌∷◌ (f y x s).0) a, b, c, d)

  one_ends :
      (is_l : Bool) (xs ys : List A) (s : St)
      → let o = reduce_pairs f is_l xs ys s in (o.rest1 ≡ []) ⊎ (o.rest2 ≡ [])
  unfolding reduce_pairs
  one_ends is_l [] ys s = inl refl
  one_ends is_l (x ∷ xs) [] s = inr refl
  one_ends is_l (x ∷ xs) (y ∷ ys) s = one_ends is_l xs ys (call f is_l x y s).1

  -- Draining the buffer and then pairing the new elements is one run over both.
  reduce_pairs-append :
      (is_l : Bool) (buf xs ys : List A) (s : St)
      → let d = reduce_pairs f is_l buf ys s in
        let p = reduce_pairs f is_l xs d.rest2 d.state in
        let z = reduce_pairs f is_l (buf ++ xs) ys s in
        (d.res ++ p.res ≡ z.res)
        × (d.rest1 ++ p.rest1 ≡ z.rest1)
        × (p.rest2 ≡ z.rest2)
        × (p.state ≡ z.state)
        × ((d.rest1 ≡ []) ⊎ (p.rest2 ≡ []))
        × ((p.rest1 ≡ []) ⊎ (p.rest2 ≡ []))
  unfolding reduce_pairs
  reduce_pairs-append is_l [] [] ys s = (refl, refl, refl, refl, inl refl, inl refl)
  reduce_pairs-append is_l [] (x ∷ xs) [] s = (refl, refl, refl, refl, inl refl, inr refl)
  reduce_pairs-append is_l [] (x ∷ xs) (y ∷ ys) s =
      (refl, refl, refl, refl, inl refl, one_ends is_l xs ys (call f is_l x y s).1)
  reduce_pairs-append is_l (b ∷ buf) [] [] s = (refl, refl, refl, refl, inr refl, inl refl)
  reduce_pairs-append is_l (b ∷ buf) (x ∷ xs) [] s = (refl, refl, refl, refl, inr refl, inr refl)
  reduce_pairs-append is_l (b ∷ buf) xs (y ∷ ys) s =
      let (a, rest) = call f is_l b y s in
      let (p, q, r, t, u, v) = reduce_pairs-append is_l buf xs ys rest in
      (ap (◌∷◌ a) p, q, r, t, u, v)

  keep_rest-sides :
      (is_l : Bool) (buf it1 it2 : List A)
      → (buf ≡ []) ⊎ (it2 ≡ [])
      → (it1 ≡ []) ⊎ (it2 ≡ [])
      → let b = keep_rest is_l buf it1 it2 in
        ((if is_l then lefts b else rights b) ≡ buf ++ it1)
        × ((if is_l then rights b else lefts b) ≡ it2)
  unfolding keep_rest
  keep_rest-sides is_l [] [] it2 h k = ground arith
  keep_rest-sides is_l [] (x ∷ it1) it2 h k = ground arith
  keep_rest-sides is_l (b ∷ buf) it1 it2 h k = ground arith

  -- What one call leaves, against the streams `z` paired whole.
  abbrev pub Leaves : List R × BinaryBuffer A × St → Reduced A R St → Type 0
  Leaves o z = (o.0 ≡ z.res) × (lefts o.1 ≡ z.rest1) × (rights o.1 ≡ z.rest2) × (o.2 ≡ z.state)

  update_and_reduce-side :
      (is_l : Bool) (buf new_l new_r : List A) (s : St)
      → let b : BinaryBuffer A = record { buf = buf; is_l = is_l } in
        Leaves (update_and_reduce f b new_l new_r s) (streams b new_l new_r s)
  unfolding update_and_reduce
  update_and_reduce-side true buf new_l new_r s =
      let d = reduce_pairs f true buf new_r s in
      let p = reduce_pairs f true new_l d.rest2 d.state in
      let (results, first, second, state, u, v) = reduce_pairs-append true buf new_l new_r s in
      let (kept, other) = keep_rest-sides true d.rest1 p.rest1 p.rest2 u v in
      (results, kept ∙ first, other ∙ second, state)
  update_and_reduce-side false buf new_l new_r s =
      let d = reduce_pairs f false buf new_l s in
      let p = reduce_pairs f false new_r d.rest2 d.state in
      let (results, first, second, state, u, v) = reduce_pairs-append false buf new_r new_l s in
      let (kept, other) = keep_rest-sides false d.rest1 p.rest1 p.rest2 u v in
      let (e1, e2, e3, e4) = reduce_pairs-flip (buf ++ new_r) new_l s in
      (results ∙ e1, other ∙ second ∙ e3, kept ∙ first ∙ e2, state ∙ e4)

  -- One call leaves what the two streams leave when they are paired whole: the same results in
  -- the same order, the same state, and the unpaired rest of either stream in the buffer.
  pub update_and_reduce-streams :
      (b : BinaryBuffer A) (new_l new_r : List A) (s : St)
      → Leaves (update_and_reduce f b new_l new_r s) (streams b new_l new_r s)
  update_and_reduce-streams b new_l new_r s = update_and_reduce-side b.is_l b.buf new_l new_r s

  -- Both streams, cut into batches and fed to the buffer in turn.
  unfoldable pub run_batches :
      BinaryBuffer A → List (List A × List A) → St → List R × BinaryBuffer A × St
  run_batches b [] s = ([], b, s)
  run_batches b ((l, r) ∷ batches) s =
      let (res, b', s') = update_and_reduce f b l r s in
      let (more, b'', s'') = run_batches b' batches s' in (res ++ more, b'', s'')

  abbrev pub all_left : List (List A × List A) → List A
  all_left [] = []
  all_left ((l, r) ∷ batches) = l ++ all_left batches

  abbrev pub all_right : List (List A × List A) → List A
  all_right [] = []
  all_right ((l, r) ∷ batches) = r ++ all_right batches

  -- Pairing may stop and go on with what was left.
  pub zip_reduce-resume :
      (xs ys xs' ys' : List A) (s : St)
      → let z = zip_reduce xs ys s in
        let w = zip_reduce (z.rest1 ++ xs') (z.rest2 ++ ys') z.state in
        let v = zip_reduce (xs ++ xs') (ys ++ ys') s in
        (z.res ++ w.res ≡ v.res) × (w.rest1 ≡ v.rest1) × (w.rest2 ≡ v.rest2) × (w.state ≡ v.state)
  unfolding reduce_pairs
  zip_reduce-resume [] ys xs' ys' s = (refl, refl, refl, refl)
  zip_reduce-resume (x ∷ xs) [] xs' ys' s = (refl, refl, refl, refl)
  zip_reduce-resume (x ∷ xs) (y ∷ ys) xs' ys' s =
      let (a, b, c, d) = zip_reduce-resume xs ys xs' ys' (f x y s).1 in
      (ap (◌∷◌ (f x y s).0) a, b, c, d)
