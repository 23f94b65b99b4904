-- ===== src/Writer/DataTree/ListReader.antt =====
-- A reader over the bytes of a list, with what `Read` promises, and other arguments for the runs of the
-- streams of crates/pstforge-pst/src/writer.rs.
use pstforge.Base.{
  ℕ, ◌+◌, Bool, false, List, [], ◌∷◌, ◌++◌, leb, leb→le, take, drop, length, ok, err, ◌≡◌, refl,
  sym, ◌∙◌, length-take, take-append-drop, Bool-cases, inl, inr, arith, if◌then◌else◌,
}
use pstforge.Writer.Error.{WriterResult, io}
use pstforge.Writer.Block.{BlockSpec}
use pstforge.Writer.DataTree.Stream.{Reader}
use pstforge.Writer.DataTree.Streamed.{IsStream}

-- A reader of a list.
abbrev read_list : ℕ → List ℕ → WriterResult (List ℕ × List ℕ)
read_list count bytes =
    if leb count (length bytes)
    then ok (take count bytes, drop count bytes)
    else err (io "failed to fill whole buffer")

abbrev read_one : List ℕ → WriterResult (ℕ × List ℕ)
read_one [] = ok (0, [])
read_one (byte ∷ bytes) = ok (1, bytes)

abbrev pub list_reader : Reader
list_reader = record { Source = List ℕ; read_exact = read_list; read = read_one }

read_list_exact :
    (count : ℕ) (source source' bytes : List ℕ)
    → read_list count source ≡ ok (bytes, source')
    → (length bytes ≡ count) × (source ≡ bytes ++ source')
read_list_exact count source source' bytes e = elim (Bool-cases (leb count (length source))) [
  | inl enough ↦
      let first : take count source ≡ bytes = ground (arith, enough, e) in
      let rest : drop count source ≡ source' = ground (arith, enough, e) in
      let small = leb→le count (length source) enough in
      rw (← first, ← rest)
        (length-take count source ∙ omega arith, sym (take-append-drop count source))
  | inr short ↦ ground (arith, short, e)
]

read_one_ends : (source source' : List ℕ) → read_one source ≡ ok (0, source') → source ≡ []
read_one_ends [] source' e = refl
read_one_ends (byte ∷ source) source' e = ground arith

pub list_reader-IsStream : IsStream list_reader (λ bytes. bytes)
list_reader-IsStream = record { exact = read_list_exact; ends = read_one_ends }

abbrev pub sum : List ℕ → ℕ
sum [] = 0
sum (x ∷ xs) = x + sum xs

abbrev pub never : ℕ → Bool
never _ = false

abbrev pub accept : ℕ → BlockSpec → WriterResult (Unit {0})
accept _ _ = ok tt
