-- ===== src/Since/Single/Run.antt =====
-- A whole step on one row, and every run of steps.
use cppmon.Shared.{
  ℕ, ◌≤◌, ◌<◌, ◌≡◌, refl, inl, inr, Bool, false, not, [], ◌∷◌, ◌++◌, arith, if◌then◌else◌,
  Bool-cases,
}
use cppmon.Interval.{Interval, sub_size_t, size_t_mod, leq_upper, lt_lower}
use cppmon.Interval
use cppmon.Since.Single.{
  Single, Marks, drop_in, drop_prev, drop_old_in, drop_old_prev, drop_too_old, add_new_ts, join,
  step, release, release_at,
}
use cppmon.Since.Single.Spec.{History, Inv, Inv-later, AllFresh}
use cppmon.Since.Single.Drop.{drop_too_old-Inv}
use cppmon.Since.Single.Move.{AllReached, NoneReached, move_prev-Inv}
use cppmon.Since.Single.Step.{join-Inv, with_point}
use cppmon.Since.Single.Table.{Settled, add_new_table-Settled}

AllReached-later :
    (inter : Interval) (old now : ℕ) (l : Marks)
    → old ≤ now
    → AllReached inter old l
    → AllReached inter now l
AllReached-later inter old now [] le r = tt
AllReached-later inter old now ((t, b) ∷ l) le (p, q) =
    (unfold lt_lower in ground (arith, p), AllReached-later inter old now l le q)

module _ (inter : Interval) (now : ℕ) where
  drop_old_in-AllReached :
      (l : Marks) (s : Single)
      → AllReached inter now l
      → AllReached inter now (drop_old_in inter now l s).inn
  unfolding drop_old_in
  drop_old_in-AllReached [] s r = tt
  drop_old_in-AllReached ((t, b) ∷ l) s r = elim (Bool-cases (leq_upper inter (sub_size_t now t))) [
    | inl e ↦ rw (e, drop_old_in) r
    | inr e ↦ rw (e, drop_old_in) (drop_old_in-AllReached l (drop_in t b s) r.1)
  ]

  drop_old_prev-inn : (l : Marks) (s : Single) → (drop_old_prev inter now l s).inn ≡ s.inn
  unfolding drop_old_prev drop_prev release release_at
  drop_old_prev-inn [] s = refl
  drop_old_prev-inn ((t, b) ∷ l) s = ground (arith, drop_old_prev-inn l (drop_prev b s))

  unbounded-AllFresh : (l : Marks) → Interval.is_bounded inter ≡ false → AllFresh inter now l
  unbounded-AllFresh [] e = tt
  unbounded-AllFresh ((t, b) ∷ l) e = (unfold leq_upper in ground arith, unbounded-AllFresh l e)

  AllFresh-front : (l k : Marks) → AllFresh inter now (l ++ k) → AllFresh inter now l
  AllFresh-front [] k f = tt
  AllFresh-front ((t, b) ∷ l) k f = (f.0, AllFresh-front l k f.1)

join-inn : (l : Bool) (s : Single) → (join l s).inn ≡ s.inn
unfolding join
join-inn l s = ground arith

join-prev : (l : Bool) (s : Single) → (join l s).prev ≡ s.prev
unfolding join
join-prev l s = ground arith

abbrev Ready : Interval → History → ℕ → Single → Type 0
Ready inter h ts s =
    Inv inter h ts s × AllReached inter ts s.inn × AllFresh inter ts (s.inn ++ s.prev)

dropped : Interval → ℕ → Single → Single
dropped inter ts s = if not (Interval.is_bounded inter) then s else drop_too_old inter ts s

module _ (inter : Interval) (h : History) (old ts : ℕ) (word : ts < size_t_mod)
    (le : old ≤ ts) where
  module _ (s : Single) (v : Inv inter h old s) (r : AllReached inter old s.inn) where
    drop_too_old-Ready : Ready inter h ts (drop_too_old inter ts s)
    drop_too_old-Ready =
        let (w, f) = drop_too_old-Inv inter h ts word s (Inv-later old ts le v) in
        (w, still_reached, f)
      where
        still_reached : AllReached inter ts (drop_too_old inter ts s).inn
        still_reached =
            unfold drop_too_old in
            rw
              (drop_old_prev-inn inter ts (drop_old_in inter ts s.inn s).prev
                (drop_old_in inter ts s.inn s))
              (drop_old_in-AllReached inter ts s.inn s (AllReached-later inter old ts s.inn le r))

    dropped-Ready : Ready inter h ts (dropped inter ts s)
    unfolding dropped
    dropped-Ready = elim (Bool-cases (Interval.is_bounded inter)) [
      | inl e ↦ rw e drop_too_old-Ready
      | inr e ↦ rw e (
        Inv-later old ts le v,
        AllReached-later inter old ts s.inn le r,
        unbounded-AllFresh inter ts (s.inn ++ s.prev) e,
      )
    ]

    -- add_new_ts brings the buffers to the new time.
    add_new_ts-Ready :
        Ready inter h ts (add_new_ts inter ts s) × NoneReached inter ts (add_new_ts inter ts s).prev
    unfolding add_new_ts dropped
    add_new_ts-Ready =
        let (v', r', f') = dropped-Ready in
        let s' : Single = dropped inter ts s in
        let (w, p, q, same) = move_prev-Inv inter h ts s'.prev s' word v' r' in
        ((w, p, rw same f'), q)

    -- One step takes a state that is right for the history to one that is right for the history
    -- with the step.
    pub step-Settled : (l b : Bool) → Settled inter (with_point ts l b h) ts (step inter ts l b s)
    unfolding step
    step-Settled l b =
        let ((v', r', f'), q) = add_new_ts-Ready in
        let s' : Single = add_new_ts inter ts s in
        add_new_table-Settled inter h ts l b (join l s') (join-Inv inter h ts l s' v')
          (rw (join-inn l s') r') (rw (join-prev l s') q)
          (rw (join-inn l s') (AllFresh-front inter ts s'.inn s'.prev f'))
