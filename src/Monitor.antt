-- ===== src/Monitor.antt =====
-- src/monitor.cpp and src/monitor.h: the evaluation of the states of subformulas. What a state's
-- own subformula returns, `state->eval(db, ts)`, is an argument.
pub mod Shift
pub mod Eval
pub mod Pred
pub mod Step
pub mod Let
pub mod Future
pub mod Fused
pub mod Layouts
