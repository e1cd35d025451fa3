-- ===== src/Tests/Ring.antt =====
-- The byte ring, on a buffer whose contents go round the end.
use nf_nms.Common.{[], ◌∷◌, ◌≡◌, refl, arith}
use nf_nms.Ring
use nf_nms.Ring.{ByteRingBuffer}
use nf_nms.Ring.Inv.{IsValid}
use nf_nms.Ring.Contents.{contents}
use nf_nms.Ring.Write.{Wrote, write_lem}
use nf_nms.Ring.Read.{Took, read_lem}

-- 8 and 9 lie at the end of the buffer, 7 at its start.
abbrev wrapped : ByteRingBuffer
wrapped = record { buffer = 7 ∷ 0 ∷ 8 ∷ 9 ∷ []; head = 2; tail = 1; size = 3 }

wrapped-IsValid : IsValid wrapped
wrapped-IsValid = omega arith

contents-wrapped : contents wrapped ≡ 8 ∷ 9 ∷ 7 ∷ []
contents-wrapped = refl

write_lem_example : Wrote wrapped (5 ∷ 6 ∷ []) 0 (Ring.write wrapped (5 ∷ 6 ∷ []))
write_lem_example = write_lem (5 ∷ 6 ∷ []) wrapped-IsValid

read_lem_example : Took wrapped 3 [] (Ring.read wrapped 3)
read_lem_example = read_lem 3 wrapped-IsValid
