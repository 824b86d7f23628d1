-- ===== src/Monitor/Eval/Temporal.antt =====
-- MSince over every run: the operator's implementation on the two streams of tables, at the times
-- of the time points, however the tables and the timestamps arrive.
use cppmon.Shared.{
  ℕ, ◌+◌, ◌-◌, ◌≤◌, ◌≡◌, refl, sym, ap, ap₂, ◌∙◌, Bool, true, false, List, [], ◌∷◌, ◌++◌, length,
  length-append, arith,
}
use mathlib.Core.List.{append_assoc}
use cppmon.Hash.{HashSet, HashMap}
use cppmon.Interval.{Interval}
use cppmon.Table.{OptTable}
use cppmon.Buffer.{BinaryBuffer, Reduced, init, reduce_pairs, update_and_reduce}
use cppmon.Buffer.Streams.{lefts, rights, zip_reduce, zip_reduce-resume, update_and_reduce-streams}
use cppmon.Since.{SinceState, since_impl, eval}
use cppmon.Monitor.Shift.Streams.{Fed}
use cppmon.Monitor.Eval.{take_ts, since_tabs, MSince, since_eval}

module _ {T : Type 0} (S : HashSet (List T)) (junk : T) (B : HashMap (List T) ℕ) where
  abbrev Tabs : Type 0
  Tabs = List (OptTable S)

  abbrev pub Calls : Type 0
  Calls = List (Tabs × Tabs × List ℕ)

  abbrev pub all_l : Calls → Tabs
  all_l [] = []
  all_l ((l, r, ts) ∷ calls) = l ++ all_l calls

  abbrev pub all_r : Calls → Tabs
  all_r [] = []
  all_r ((l, r, ts) ∷ calls) = r ++ all_r calls

  abbrev pub all_times : Calls → List ℕ
  all_times [] = []
  all_times ((l, r, ts) ∷ calls) = ts ++ all_times calls

  -- What the implementation answers on the streams, one time point after the other.
  abbrev pub answers : SinceState S B → Tabs → Tabs → List ℕ → Tabs
  answers impl [] rs ts = []
  answers impl (l ∷ ls) [] ts = []
  answers impl (l ∷ ls) (r ∷ rs) [] = []
  answers impl (l ∷ ls) (r ∷ rs) (t ∷ ts) =
      let (ret, impl') = eval S B junk l r t impl in ret ∷ answers impl' ls rs ts

  abbrev zip :
      Tabs
      → Tabs
      → List ℕ × SinceState S B
      → Reduced (OptTable S) (OptTable S) (List ℕ × SinceState S B)
  zip = zip_reduce (since_tabs S junk B)

  -- With a timestamp for each left table, later timestamps change nothing.
  zip-later :
      (xs ys : Tabs) (ts more : List ℕ) (impl : SinceState S B)
      → length xs ≤ length ts
      → let z = zip xs ys (ts, impl) in
        let v = zip xs ys (ts ++ more, impl) in
        (v.res ≡ z.res)
        × (v.rest1 ≡ z.rest1)
        × (v.rest2 ≡ z.rest2)
        × (v.state ≡ (z.state.0 ++ more, z.state.1))
        × (length z.rest1 + length ts ≡ length xs + length z.state.0)
        × (z.res ≡ answers impl xs ys ts)
  unfolding reduce_pairs since_tabs take_ts
  zip-later [] ys ts more impl h = (refl, refl, refl, refl, refl, refl)
  zip-later (x ∷ xs) [] ts more impl h = (refl, refl, refl, refl, refl, refl)
  zip-later (x ∷ xs) (y ∷ ys) [] more impl h = absurd (omega arith)
  zip-later (x ∷ xs) (y ∷ ys) (t ∷ ts) more impl h =
      let (ret, impl') = eval S B junk x y t impl in
      let (a, b, c, d, e, g) = zip-later xs ys ts more impl' (omega arith) in
      (ap (◌∷◌ ret) a, b, c, d, omega arith, ap (◌∷◌ ret) g)

  abbrev pub left_calls : Calls → List (Tabs × List ℕ)
  left_calls [] = []
  left_calls ((l, r, ts) ∷ calls) = (l, ts) ∷ left_calls calls

  unfoldable pub run_since : MSince S junk B → Calls → Tabs × MSince S junk B
  run_since st [] = ([], st)
  run_since st ((l, r, ts) ∷ calls) =
      let (out, st') = since_eval S junk B l r ts st in
      let (more, st'') = run_since st' calls in (out ++ more, st'')

  zip_congr :
      {xs xs' ys ys' : Tabs} {s s' : List ℕ × SinceState S B}
      → xs ≡ xs'
      → ys ≡ ys'
      → s ≡ s'
      → (zip xs ys s).res ≡ (zip xs' ys' s').res
  zip_congr p q r i = (zip (p i) (q i) (r i)).res

  -- A buffer alone gives no pair.
  zip-none :
      (is_l : Bool) (buf : Tabs) (s : List ℕ × SinceState S B)
      → let b : BinaryBuffer (OptTable S) = record { buf = buf; is_l = is_l } in
        (zip (lefts b ++ []) (rights b ++ []) s).res ≡ []
  unfolding reduce_pairs
  zip-none true [] s = refl
  zip-none true (x ∷ buf) s = refl
  zip-none false buf s = refl

  left_calls_le :
      (n : ℕ) (calls : Calls)
      → Fed n (left_calls calls)
      → length (all_l calls) ≤ n + length (all_times calls)
  left_calls_le n [] h = omega arith
  left_calls_le n ((l, r, ts) ∷ calls) (h, hs) = omega (
    arith,
    left_calls_le (n + length ts - length l) calls hs,
    length-append l (all_l calls),
    length-append ts (all_times calls),
  )

  run_since-zip :
      (st : MSince S junk B) (calls : Calls) (n : ℕ)
      → length (lefts st.buf) + n ≡ length st.ts_buf
      → Fed n (left_calls calls)
      → (run_since st calls).0
        ≡ (zip
            (lefts st.buf ++ all_l calls)
            (rights st.buf ++ all_r calls)
            (st.ts_buf ++ all_times calls, st.impl)).res
  unfolding run_since since_eval
  run_since-zip st [] n count h = sym (zip-none st.buf.is_l st.buf.buf (st.ts_buf ++ [], st.impl))
  run_since-zip st ((l, r, ts) ∷ calls) n count (h, hs) =
      let xs = lefts st.buf ++ l in
      let ys = rights st.buf ++ r in
      let times = st.ts_buf ++ ts in
      let (out, st') = since_eval S junk B l r ts st in
      let z = zip xs ys (times, st.impl) in
      let (e1, e2, e3, e4) =
        update_and_reduce-streams (since_tabs S junk B) st.buf l r (times, st.impl) in
      let (a, b, c, d, used, g) =
        zip-later xs ys times (all_times calls) st.impl
          (omega (arith, length-append (lefts st.buf) l, length-append st.ts_buf ts)) in
      let (r1, r2, r3, r4) =
        zip_reduce-resume (since_tabs S junk B) xs ys (all_l calls) (all_r calls)
          (times ++ all_times calls, st.impl) in
      let o = update_and_reduce (since_tabs S junk B) st.buf l r (times, st.impl) in
      let kept : length (lefts st'.buf) + (n + length ts - length l) ≡ length st'.ts_buf = omega (
        arith,
        ap length e2,
        ap (λ (s : List ℕ × SinceState S B). length s.0) e4,
        used,
        length-append (lefts st.buf) l,
        length-append st.ts_buf ts,
      ) in
      let rest = run_since-zip st' calls (n + length ts - length l) kept hs in
      let resumed =
        zip_congr (ap (λ q. q ++ all_l calls) (e2 ∙ sym b))
          (ap (λ q. q ++ all_r calls) (e3 ∙ sym c))
          (ap (λ (s : List ℕ × SinceState S B). (s.0 ++ all_times calls, s.1)) e4 ∙ sym d) in
      ap₂ ◌++◌ (e1 ∙ sym a) (rest ∙ resumed)
      ∙ r1
      ∙ zip_congr (append_assoc (lefts st.buf) l (all_l calls))
          (append_assoc (rights st.buf) r (all_r calls))
          (ap (λ q. (q, st.impl)) (append_assoc st.ts_buf ts (all_times calls)))

  -- However the tables of the two sides and the timestamps arrive, as long as the left side never
  -- has more tables than there are timestamps: MSince returns what since_impl answers when it is
  -- given the two streams table by table, each pair with the timestamp of its time point.
  pub run_since-answers :
      (calls : Calls) (left_negated : Bool) (nfvs : ℕ) (comm_idx_r : List ℕ) (inter : Interval)
      → Fed 0 (left_calls calls)
      → let impl = since_impl S B left_negated nfvs comm_idx_r inter in
        (run_since (record { buf = init; ts_buf = []; impl = impl }) calls).0
        ≡ answers impl (all_l calls) (all_r calls) (all_times calls)
  unfolding init
  run_since-answers calls left_negated nfvs comm_idx_r inter h =
      let impl = since_impl S B left_negated nfvs comm_idx_r inter in
      let st : MSince S junk B = record { buf = init; ts_buf = []; impl = impl } in
      let (a, b, c, d, used, g) =
        zip-later (all_l calls) (all_r calls) (all_times calls) [] impl
          (omega (arith, left_calls_le 0 calls h)) in
      run_since-zip st calls 0 refl h ∙ g
