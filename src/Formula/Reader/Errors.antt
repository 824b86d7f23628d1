-- ===== src/Formula/Reader/Errors.antt =====
-- src/formula.cpp: the documents that the reader of formulas throws on.
use Prim.Native.String.{String}
use cppmon.Json.{Json}
