-- ===== src/Io/Tests.antt =====
-- The theorems on line reading, at short inputs.
use plumbr_c.Prelude.{◌+◌, ◌≡◌, refl, codes, some, ◌++◌, ◌∷◌, [], arith}
use plumbr_c.Io.{true, false, io_read_line, got}
use plumbr_c.Io.Total.{Returns, io_read_line-Returns}
use plumbr_c.Io.Write.{io_write, io_flush, wrote, failed}
use plumbr_c.Io.Write.Laws.{Writes, writer, io_write-Keeps, io_flush_twice}
use plumbr_c.Prelude.{take}
use plumbr_c.Io.Lines.{reader, carrying}
use plumbr_c.Io.Split.{io_read_line-split_twice}

io_read_line-split_twice_example :
    let chunk = codes "AKIA" ++ b'\n' ∷ (codes "ok" ++ b'\n' ∷ codes "x") in
    let ctx =
      carrying
        (codes "key=")
        (codes "ok" ++ b'\n' ∷ codes "x")
        (0 + 4 + 1)
        (0 + 4 + 9)
        (0 + 1)
        [] in
    (io_read_line 2 (reader [] 0 0 0 (got (codes "key=") ∷ got chunk ∷ []))
      ≡ some (ctx, some (codes "AKIA")))
    × (io_read_line 1 ctx
        ≡ some (
          reader (codes "x") (0 + 4 + 1 + 2 + 1) (0 + 4 + 9) (0 + 1 + 1) [],
          some (codes "key=ok"),
        ))
io_read_line-split_twice_example =
    io_read_line-split_twice 0 0 0 0 (codes "key=") (codes "AKIA") (codes "ok") (codes "x") []
      (omega arith) (omega arith) (omega arith) (refl, (refl, (refl, (refl, tt))))
      (refl, (refl, (refl, (refl, tt)))) (refl, (refl, tt))

io_read_line-Returns_example :
    Returns (io_read_line 5 (reader (codes "ab") 0 0 0 (got (codes "c") ∷ [])))
io_read_line-Returns_example =
    io_read_line-Returns 5 (reader (codes "ab") 0 0 0 (got (codes "c") ∷ [])) (omega arith)

io_write-Keeps_example :
    Writes
      (writer (codes "ab") 0 (wrote 1 ∷ []) [])
      (codes "cd")
      (io_write (writer (codes "ab") 0 (wrote 1 ∷ []) []) (codes "cd"))
io_write-Keeps_example =
    io_write-Keeps (writer (codes "ab") 0 (wrote 1 ∷ []) []) (codes "cd") (omega arith)

io_flush_twice_example :
    let part = [] ++ take 1 (codes "ab") in
    (io_flush (writer (codes "ab") 0 (wrote 1 ∷ failed ∷ []) [])
      ≡ (writer (codes "ab") 0 [] part, false))
    × (io_flush (writer (codes "ab") 0 [] part) ≡ (writer [] (0 + 2) [] (part ++ codes "ab"), true))
io_flush_twice_example = io_flush_twice 1 b'a' (codes "b") 0 [] (omega arith)
