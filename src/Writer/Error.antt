-- ===== src/Writer/Error.antt =====
-- The errors of crates/pstforge-pst/src/writer.rs that the modelled code returns, with their messages,
-- and the results of that code.
use pstforge.Base.{String, Result}

pub data WriterError : Type 0 where
  interrupted : WriterError
  value_too_large : String → WriterError
  invalid_structure : String → WriterError
  io : String → WriterError

abbrev pub WriterResult {ℓ} : Type ℓ → Type ℓ
WriterResult A = Result WriterError A
