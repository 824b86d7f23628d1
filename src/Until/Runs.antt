-- ===== src/Until/Runs.antt =====
-- src/until_impl.cpp: the steps of eventually_impl, and the invariant on every run.
use cppmon.Shared.{
  ℕ, ◌+◌, ◌-◌, min, ◌≤◌, ◌<◌, ◌≡◌, refl, sym, ap, ◌∙◌, subst, inl, inr, Bool, true, false, List, [],
  ◌∷◌, ◌++◌, arith, length-append, Bool-cases, if◌then◌else◌,
}
use cppmon.Hash.{HashSet, HashMap}
use cppmon.Interval.{Interval, leq_upper, get_lower, size_t_mod, sub_size_t, sub_size_t-of_le}
use cppmon.Table.{OptTable}
use cppmon.Until.{
  UntilBase, until_impl_base, erase_cond, merge_first, table_from_map, emit_front, shift_loop,
  shift, eval, new_ts_tp, eventually_update, eventually_rows, rows_of, push_ts, add_right_table,
}
use cppmon.Until.History.{key, lower_pos, History, AllCorrect, AllCorrect-append}
use cppmon.Until.Steps.{cz, Inv, Inv-later, emit-Inv}
use cppmon.Until.NewTable.{Fresh, add-Inv}

module _ {T : Type 0} (S : HashSet (List T)) (B : HashMap (List T) ℕ) (inter : Interval) where
  -- The invariant of a state, which has the interval that it was made with.
  pub record State (h : History S) (now : ℕ) (out : List (OptTable S)) (st : UntilBase S B)
      : Type 0 where
    pub inv : Inv S B inter h now out st.first_tp st.curr_tp st.ts_buf st.a2_map st.res_acc
    pub inter_is : st.inter ≡ inter
    pub cz_is : st.contains_zero ≡ cz S B inter

  shift_keep :
      (now t0 : ℕ) (l : List ℕ) (st : UntilBase S B)
      → leq_upper st.inter (sub_size_t now t0) ≡ true
      → shift_loop S B now (t0 ∷ l) st ≡ st
  unfolding shift_loop
  shift_keep now t0 l st e = rw (e, shift_loop) refl

  shift_emit :
      (now t0 : ℕ) (l : List ℕ) (st : UntilBase S B)
      → leq_upper st.inter (sub_size_t now t0) ≡ false
      → shift_loop S B now (t0 ∷ l) st ≡ shift_loop S B now l (emit_front S B t0 l st.a2_map st)
  unfolding shift_loop
  shift_emit now t0 l st e = rw (e, shift_loop) refl

  module _ (h : History S) (now : ℕ) (out : List (OptTable S)) where
    -- A state whose oldest time point is not too old.
    abbrev pub Shifted : UntilBase S B → Type 0
    Shifted st = State h now out st × Fresh S B inter st.ts_buf now

    Inv-at :
        (st : UntilBase S B) (l : List ℕ) (maps : List B.Carrier)
        → st.ts_buf ≡ l
        → st.a2_map ≡ maps
        → State h now out st
        → Inv S B inter h now out st.first_tp st.curr_tp l maps st.res_acc
    Inv-at st l maps e f s =
        subst (λ k. Inv S B inter h now out st.first_tp st.curr_tp k maps st.res_acc) e
          (subst (λ k. Inv S B inter h now out st.first_tp st.curr_tp st.ts_buf k st.res_acc) f
            s.inv)

    age_is :
        (st : UntilBase S B) (t0 : ℕ) (l : List ℕ)
        → st.ts_buf ≡ t0 ∷ l
        → State h now out st
        → leq_upper st.inter (sub_size_t now t0) ≡ leq_upper inter (now - t0)
    age_is st t0 l e s =
        let inv = Inv-at st (t0 ∷ l) st.a2_map e refl s in
        let (b, p) = inv.times.0 in
        ap (λ i. leq_upper i (sub_size_t now t0)) s.inter_is
        ∙ ap (leq_upper inter) (sub_size_t-of_le now t0 (inv.past st.first_tp t0 b p) inv.small)

    emit-State :
        (st : UntilBase S B) (t0 : ℕ) (l : List ℕ) (maps : List B.Carrier)
        → st.ts_buf ≡ t0 ∷ l
        → st.a2_map ≡ maps
        → leq_upper inter (now - t0) ≡ false
        → State h now out st
        → State h now out (emit_front S B t0 l maps st)
    unfolding emit_front
    emit-State st t0 l [] e f late s = absurd (omega (arith, (Inv-at st (t0 ∷ l) [] e f s).sizes))
    emit-State st t0 l (m ∷ []) e f late s =
        absurd (omega (arith, (Inv-at st (t0 ∷ l) (m ∷ []) e f s).sizes))
    emit-State st t0 l (m ∷ m1 ∷ maps) e f late s = record {
      inv =
          subst
            (λ c.
              let left = B.erase_if (λ k v. erase_cond c st.first_tp t0 v) m in
              Inv S B inter h now out (st.first_tp + 1) st.curr_tp l
                (merge_first S B left (m1 ∷ maps))
                (st.res_acc ++ (table_from_map S B st.nfvs left ∷ [])))
            (sym s.cz_is)
            (emit-Inv S B inter h now out st.first_tp st.curr_tp t0 l m m1 maps st.res_acc st.nfvs
              (Inv-at st (t0 ∷ l) (m ∷ m1 ∷ maps) e f s) late);
      inter_is = s.inter_is;
      cz_is = s.cz_is;
    }

    emit_ts :
        (t0 : ℕ) (l : List ℕ) (maps : List B.Carrier) (st : UntilBase S B)
        → (emit_front S B t0 l maps st).ts_buf ≡ l
    unfolding emit_front
    emit_ts t0 l [] st = refl
    emit_ts t0 l (m ∷ maps) st = refl

    shift_loop-Shifted :
        (l : List ℕ) (st : UntilBase S B)
        → st.ts_buf ≡ l
        → State h now out st
        → Shifted (shift_loop S B now l st)
    unfolding shift_loop
    shift_loop-Shifted [] st e s = (s, subst (λ k. Fresh S B inter k now) (sym e) tt)
    shift_loop-Shifted (t0 ∷ l) st e s = elim (Bool-cases (leq_upper inter (now - t0))) [
      | inl t ↦
          subst Shifted (sym (shift_keep now t0 l st (age_is st t0 l e s ∙ t)))
            (s, subst (λ k. Fresh S B inter k now) (sym e) t)
      | inr f ↦ subst Shifted (sym (shift_emit now t0 l st (age_is st t0 l e s ∙ f))) (
          shift_loop-Shifted l (emit_front S B t0 l st.a2_map st) (emit_ts t0 l st.a2_map st)
            (emit-State st t0 l st.a2_map e refl f s))
    ]

  -- Every result that is due at the time t is emitted, and the invariant holds at t.
  pub shift-Shifted :
      (h : History S) (now t : ℕ) (out : List (OptTable S)) (st : UntilBase S B)
      → now ≤ t
      → t < size_t_mod
      → State h now out st
      → Shifted h t out (shift S B t st)
  unfolding shift
  shift-Shifted h now t out st le lt s = shift_loop-Shifted h t out st.ts_buf st refl (record {
    inv = Inv-later S B inter h now t out _ _ _ _ _ le lt s.inv;
    inter_is = s.inter_is;
    cz_is = s.cz_is;
  })

  -- What new_ts_tp computes.
  tp-key :
      (c : Bool) (curr t : ℕ)
      → inter.l < size_t_mod
      → (c ≡ false → 0 < inter.l)
      → (if c then curr else t - min (sub_size_t inter.l 1) t) ≡ key c inter.l curr t
  tp-key true curr t lt pos = refl
  tp-key false curr t lt pos =
      rw (sub_size_t-of_le inter.l 1 (omega (arith, pos refl)) lt) (omega arith)

  new_ts_tp-key :
      (h : History S) (t : ℕ) (out : List (OptTable S)) (st : UntilBase S B)
      → inter.l < size_t_mod
      → State h t out st
      → new_ts_tp S B t st ≡ key (cz S B inter) inter.l st.curr_tp t
  unfolding new_ts_tp get_lower
  new_ts_tp-key h t out st small s =
      ap (λ c. if c then st.curr_tp else t - min (sub_size_t st.inter.l 1) t) s.cz_is
      ∙ ap (λ (i : Interval). if cz S B inter then st.curr_tp else t - min (sub_size_t i.l 1) t)
          s.inter_is
      ∙ tp-key (cz S B inter) st.curr_tp t small (lower_pos inter)

  push-State :
      (h : History S) (t : ℕ) (out : List (OptTable S)) (st : UntilBase S B) (tab : OptTable S)
      → inter.l < size_t_mod
      → Shifted h t out st
      → State ((t, tab) ∷ h) t out (push_ts S B t (eventually_update S B t tab st))
  unfolding eventually_update push_ts
  push-State h t out st tab small (s, fresh) = record {
    inv =
        subst (λ c. Good c (new_ts_tp S B t st)) (sym s.cz_is)
          (subst (Good (cz S B inter)) (sym (new_ts_tp-key h t out st small s)) (
            add-Inv S B inter h t out st.first_tp st.curr_tp st.ts_buf st.a2_map st.res_acc tab
              s.inv fresh));
    inter_is = s.inter_is;
    cz_is = s.cz_is;
  }
    where
      Good : Bool → ℕ → Type 0
      Good c v =
          Inv S B inter ((t, tab) ∷ h) t out st.first_tp (st.curr_tp + 1) (st.ts_buf ++ (t ∷ []))
            (eventually_rows S B c v (rows_of S B tab) st.a2_map ++ (B.empty ∷ [])) st.res_acc

  pub add-State :
      (h : History S) (now t : ℕ) (out : List (OptTable S)) (st : UntilBase S B) (tab : OptTable S)
      → inter.l < size_t_mod
      → now ≤ t
      → t < size_t_mod
      → State h now out st
      → State ((t, tab) ∷ h) t out (add_right_table S B tab t st)
  unfolding add_right_table
  add-State h now t out st tab small le lt s =
      push-State h t out (shift S B t st) tab small (shift-Shifted h now t out st le lt s)

  pub eval-State :
      (h : History S) (now t : ℕ) (out : List (OptTable S)) (st : UntilBase S B)
      → now ≤ t
      → t < size_t_mod
      → State h now out st
      → State h t (out ++ (eval S B t st).0) (eval S B t st).1
  unfolding eval
  eval-State h now t out st le lt s =
      let (after, fresh) = shift-Shifted h now t out st le lt s in
      let inv = after.inv in
      let st2 = shift S B t st in
      record {
        inv = record {
          counted = inv.counted;
          opened = inv.opened;
          sizes = inv.sizes;
          times = inv.times;
          past = inv.past;
          sorted = inv.sorted;
          small = inv.small;
          close = inv.close;
          sound = inv.sound;
          complete = inv.complete;
          closed = inv.closed;
          answered = (
            AllCorrect-append S inter h 0 out st2.res_acc inv.answered.0
                (subst (λ k. AllCorrect S inter h k st2.res_acc) (omega arith) inv.answered.1),
            tt,
          );
          emitted = omega (arith, inv.emitted, length-append out st2.res_acc);
        };
        inter_is = after.inter_is;
        cz_is = after.cz_is;
      }

  pub start-State : (nfvs : ℕ) → State [] 0 [] (until_impl_base S B nfvs inter)
  unfolding until_impl_base
  start-State nfvs = record {
    inv = record {
      counted = refl;
      opened = refl;
      sizes = refl;
      times = tt;
      past = λ i t b p. absurd p;
      sorted = λ i j t u b c p q le. absurd p;
      small = omega arith;
      close = tt;
      sound = ((λ e v mark. absurd (ground (arith, mark, B.find-empty e))), tt);
      complete = tt;
      closed = λ i t b p lt. absurd p;
      answered = (tt, tt);
      emitted = refl;
    };
    inter_is = refl;
    cz_is = refl;
  }
