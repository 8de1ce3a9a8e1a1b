-- ===== src/Buffers/DataBuffer/Copying.antt =====
-- The copies that DataBuffer of core/src/databuffer.ts makes.
use mathlib.Core.List.{flatten}
use nats_js.Base.{
  zero, suc, ◌≡◌, refl, sym, ap, ◌∙◌, arith, ℕ, ◌+◌, Bytes, List, [], ◌∷◌, ◌++◌, append_assoc,
  length, take, drop, length-append, length-drop,
}
use nats_js.Buffers.DataBuffer.{zeros, set_at, copy_all}

pub length-zeros : (n : ℕ) → length (zeros n) ≡ n
length-zeros zero = refl
length-zeros (suc n) = omega (arith, length-zeros n)

take_front : (xs ys : Bytes) → take (length xs) (xs ++ ys) ≡ xs
take_front [] ys = refl
take_front (x ∷ xs) ys = ap (λ t. x ∷ t) (take_front xs ys)

drop_front : (xs ys : Bytes) (n : ℕ) → drop (length xs + n) (xs ++ ys) ≡ drop n ys
drop_front [] ys n = ap (λ k. drop k ys) (omega arith)
drop_front (x ∷ xs) ys n =
    let e : suc (length xs) + n ≡ suc (length xs + n) = omega arith in rw e (drop_front xs ys n)

-- What stands before the index is kept, and what is behind it is overwritten.
pub copy_all-flatten :
    (out : Bytes) (bs : List Bytes) (rest : Bytes)
    → length rest ≡ length (flatten bs)
    → copy_all (out ++ rest) (length out) bs ≡ out ++ flatten bs
unfolding copy_all flatten
copy_all-flatten out [] [] h = refl
copy_all-flatten out [] (x ∷ rest) h = absurd (omega arith)
copy_all-flatten out (b ∷ bs) rest h =
    let placed : set_at (out ++ rest) (length out) b ≡ (out ++ b) ++ drop (length b) rest =
      ap (λ t. t ++ (b ++ drop (length out + length b) (out ++ rest))) (take_front out rest)
      ∙ ap (λ t. out ++ (b ++ t)) (drop_front out rest (length b))
      ∙ sym (append_assoc out b (drop (length b) rest)) in
    let left : length (drop (length b) rest) ≡ length (flatten bs) =
      omega (arith, length-drop (length b) rest, h, length-append b (flatten bs)) in
    ap (λ t. copy_all t (length out + length b) bs) placed
    ∙ ap (λ n. copy_all ((out ++ b) ++ drop (length b) rest) n bs) (sym (length-append out b))
    ∙ copy_all-flatten (out ++ b) bs (drop (length b) rest) left
    ∙ append_assoc out b (flatten bs)
