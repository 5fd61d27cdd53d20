-- ===== src/Text/Scan.antt =====
-- `bufio.Scanner` over the lines of a reader.
use cgroups.Prelude.{List, Option, none}
use cgroups.Error.{Error}
use cgroups.Text.Defs.{Bytes}

-- The lines that the scanner delivers and what `Err` returns at the end: a read error, or a line
-- over the scanner's limit, stops it after the lines before.
pub record Scanner : Type 0 where
  pub lines : List Bytes
  pub error : Option Error

abbrev pub whole : List Bytes → Scanner
whole lines = record { lines = lines; error = none }
