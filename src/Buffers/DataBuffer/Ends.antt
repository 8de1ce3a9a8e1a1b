-- ===== src/Buffers/DataBuffer/Ends.antt =====
-- `shift` and `peek` of core/src/databuffer.ts.
use mathlib.Core.List.{flatten}
use nats_js.Base.{◌≡◌, refl, sym, ap, ◌∙◌, arith, Bytes, List, [], ◌∷◌, ◌++◌, length, length-append}
use nats_js.Buffers.DataBuffer.{DataBuffer, pack, shift, shift_first, peek, first, contents}
use nats_js.Buffers.DataBuffer.Contents.{IsCounted, pack_one, pack_more, contents-pack, flatten_one}

shift_chunks :
    (bs : List Bytes) (d : DataBuffer)
    → d.buffers ≡ bs
    → IsCounted d
    → (contents d ≡ (shift_first bs d).1 ++ contents (shift_first bs d).0)
      × IsCounted (shift_first bs d).0
unfolding shift_first flatten
shift_chunks [] d e h = (refl, h)
shift_chunks (a ∷ bs) d e h =
    let all = ap flatten e in (all, omega (arith, h, ap length all, length-append a (flatten bs)))

-- If the byte count is right, `shift` hands out the first chunk, keeps the others, and keeps the count right.
contents-shift :
    (d : DataBuffer)
    → IsCounted d
    → (contents d ≡ (shift d).1 ++ contents (shift d).0) × IsCounted (shift d).0
unfolding shift
contents-shift d h = shift_chunks d.buffers d refl h

peek_chunks :
    (bs : List Bytes) (d : DataBuffer)
    → d.buffers ≡ bs
    → IsCounted d
    → first (pack d).buffers ≡ contents d
unfolding first
peek_chunks [] d e h =
    ap (λ q. first q.buffers) (pack_one d [] e (omega arith))
    ∙ ap first e
    ∙ sym (ap flatten e ∙ unfold flatten in refl)
peek_chunks (v ∷ []) d e h =
    ap (λ q. first q.buffers) (pack_one d (v ∷ []) e (omega arith))
    ∙ ap first e
    ∙ sym (ap flatten e ∙ flatten_one v)
peek_chunks (v ∷ w ∷ bs) d e h = ap (λ q. first q.buffers) (pack_more d v w bs e h)

-- If the byte count is right, `peek` shows everything that is held, in one chunk, and keeps it.
peek_lem :
    (d : DataBuffer) → IsCounted d → ((peek d).1 ≡ contents d) × (contents (peek d).0 ≡ contents d)
unfolding peek
peek_lem d h = (peek_chunks d.buffers d refl h, contents-pack d h)
