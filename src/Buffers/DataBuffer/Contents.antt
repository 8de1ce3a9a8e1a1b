-- ===== src/Buffers/DataBuffer/Contents.antt =====
-- `DataBuffer` against the sequence of the bytes that it holds.
use mathlib.Core.List.{flatten}
use nats_js.Base.{
  ◌≡◌, refl, sym, ap, ◌∙◌, arith, ℕ, ◌+◌, ◌≤◌, Bytes, Option, List, [], ◌∷◌, ◌++◌, append-nil,
  append_assoc, length, take, drop, length-append, length-drop, take_all, drop_all, if◌then◌else◌,
  false, ◌==◌, none, some, ltb, inl, inr, Bool-cases,
}
use nats_js.Buffers.DataBuffer.{
  DataBuffer, zeros, copy_all, pack, clamp, drain, drain_packed, split_off, fill, fill_more,
  contents,
}
use nats_js.Buffers.DataBuffer.Copying.{length-zeros, copy_all-flatten}

-- `byteLength` counts the bytes that are held.
abbrev pub IsCounted : DataBuffer → Type 0
IsCounted d = d.byte_length ≡ length (contents d)

pub flatten_one : (v : Bytes) → flatten (v ∷ []) ≡ v
unfolding flatten
flatten_one v = append-nil v

flatten-append : (xs ys : List Bytes) → flatten (xs ++ ys) ≡ flatten xs ++ flatten ys
unfolding flatten
flatten-append [] ys = refl
flatten-append (x ∷ xs) ys =
    ap (λ t. x ++ t) (flatten-append xs ys) ∙ sym (append_assoc x (flatten xs) (flatten ys))

-- The chunks are copied into an array of `byteLength` bytes.
copied : (d : DataBuffer) → IsCounted d → copy_all (zeros d.byte_length) 0 d.buffers ≡ contents d
copied d h = copy_all-flatten [] d.buffers (zeros d.byte_length) (length-zeros d.byte_length ∙ h)

pub contents-pack : (d : DataBuffer) → IsCounted d → contents (pack d) ≡ contents d
unfolding pack
contents-pack d h =
    ground (arith, copied d h, flatten_one (copy_all (zeros d.byte_length) 0 d.buffers))

-- A chunk that is alone gives its first bytes away and keeps the rest.
split_off_lem :
    (k : ℕ) (v : Bytes) (d : DataBuffer)
    → d.byte_length ≡ length v
    → k ≤ length v
    → ((split_off k v d).1 ≡ take k v)
      × (contents (split_off k v d).0 ≡ drop k v)
      × IsCounted (split_off k v d).0
unfolding split_off flatten
split_off_lem k v d h le = (
  refl,
  ground (arith, append-nil (drop k v), drop_all k v),
  ground (arith, append-nil (drop k v), length-drop k v),
)

clamp-le : (n : Option ℕ) (max : ℕ) → clamp n max ≤ max
unfolding clamp
clamp-le n max = ground arith

abbrev Clamped : Option ℕ → DataBuffer → DataBuffer × Bytes → Type 0
Clamped n d r =
    (r.1 ≡ take (clamp n (length (contents d))) (contents d))
    × (contents r.0 ≡ drop (clamp n (length (contents d))) (contents d))
    × IsCounted r.0

drain_one :
    (n : Option ℕ) (v : Bytes) (q : DataBuffer)
    → q.byte_length ≡ length v
    → drain_packed n (v ∷ []) q ≡ split_off (clamp n (length v)) v q
unfolding drain_packed
drain_one n v q h = ap (λ m. split_off (clamp n m) v q) h

drain_lem : (n : Option ℕ) (d : DataBuffer) → drain n d ≡ drain_packed n (pack d).buffers (pack d)
unfolding drain
drain_lem n d = refl

-- One chunk `v` holds everything, after `pack`.
drain_alone :
    (n : Option ℕ) (v : Bytes) (d q : DataBuffer)
    → pack d ≡ q
    → q.buffers ≡ v ∷ []
    → v ≡ contents d
    → q.byte_length ≡ length v
    → Clamped n d (drain n d)
drain_alone n v d q p e same h =
    let k = clamp n (length v) in
    let here : drain n d ≡ split_off k v q =
      drain_lem n d
      ∙ ap (λ t. drain_packed n t.buffers t) p
      ∙ ap (λ t. drain_packed n t q) e
      ∙ drain_one n v q h in
    let parts = split_off_lem k v q h (clamp-le n (length v)) in rw (here, ← same) parts

pub pack_one : (d : DataBuffer) (bs : List Bytes) → d.buffers ≡ bs → length bs ≤ 1 → pack d ≡ d
unfolding pack
pack_one d bs e h = ground arith

pub pack_more :
    (d : DataBuffer) (v w : Bytes) (bs : List Bytes)
    → d.buffers ≡ v ∷ w ∷ bs
    → IsCounted d
    → pack d ≡ record { buffers = contents d ∷ []; byte_length = d.byte_length }
unfolding pack
pack_more d v w bs e h = ground (arith, copied d h)

drain_chunks :
    (n : Option ℕ) (bs : List Bytes) (d : DataBuffer)
    → d.buffers ≡ bs
    → IsCounted d
    → Clamped n d (drain n d)
drain_chunks n [] d e h =
    let none_left : contents d ≡ [] = ap flatten e ∙ unfold flatten in refl in
    let here : drain n d ≡ (d, []) =
      drain_lem n d
      ∙ ap (λ t. drain_packed n t.buffers t) (pack_one d [] e (omega arith))
      ∙ ap (λ t. drain_packed n t d) e
      ∙ unfold drain_packed in refl in
    rw (here, none_left)
      (sym (take_all _ [] (omega arith)), sym (drop_all _ [] (omega arith)), rw none_left at h)
drain_chunks n (v ∷ []) d e h =
    let one = ap flatten e ∙ flatten_one v in
    drain_alone n v d d (pack_one d (v ∷ []) e (omega arith)) e (sym one) (h ∙ ap length one)
drain_chunks n (v ∷ w ∷ bs) d e h =
    drain_alone n (contents d) d _ (pack_more d v w bs e h) refl refl h

-- `drain` hands out the first bytes, as many as it is asked for, or all if it is not told how many, and keeps the
-- others.
abbrev pub Drains : Option ℕ → DataBuffer → DataBuffer × Bytes → Type 0
Drains none d r = (r.1 ≡ contents d) × (contents r.0 ≡ []) × IsCounted r.0
Drains (some n) d r =
    (r.1 ≡ take n (contents d)) × (contents r.0 ≡ drop n (contents d)) × IsCounted r.0

Clamped-Drains :
    (n : Option ℕ) (d : DataBuffer) (r : DataBuffer × Bytes) → Clamped n d r → Drains n d r
unfolding clamp
Clamped-Drains none d r h = (
  h.0 ∙ take_all (length (contents d)) (contents d) (omega arith),
  h.1 ∙ drop_all (length (contents d)) (contents d) (omega arith),
  h.2,
)
Clamped-Drains (some n) d r h = elim (Bool-cases (ltb (length (contents d)) n)) [
  | inl e ↦
      let all : length (contents d) ≤ n = ground arith in
      let out : r.1 ≡ take (length (contents d)) (contents d) = ground (arith, h.0) in
      let kept : contents r.0 ≡ drop (length (contents d)) (contents d) = ground (arith, h.1) in
      (
        out
            ∙ take_all (length (contents d)) (contents d) (omega arith)
            ∙ sym (take_all n (contents d) all),
        kept
            ∙ drop_all (length (contents d)) (contents d) (omega arith)
            ∙ sym (drop_all n (contents d) all),
        h.2,
      )
  | inr e ↦ (ground (arith, h.0), ground (arith, h.1), h.2)
]

-- If the byte count is right, `drain` hands out the first n bytes, or all if there are fewer or it is not told how
-- many, keeps the others, and keeps the count right.
pub drain-Drains : (n : Option ℕ) (d : DataBuffer) → IsCounted d → Drains n d (drain n d)
drain-Drains n d h = Clamped-Drains n d (drain n d) (drain_chunks n d.buffers d refl h)

abbrev with_chunk : DataBuffer → Bytes → DataBuffer
with_chunk d b = record { buffers = d.buffers ++ b ∷ []; byte_length = d.byte_length + length b }

contents-with_chunk :
    (d : DataBuffer) (b : Bytes)
    → IsCounted d
    → (contents (with_chunk d b) ≡ contents d ++ b) × IsCounted (with_chunk d b)
contents-with_chunk d b h =
    let joined = flatten-append d.buffers (b ∷ []) ∙ ap (λ t. contents d ++ t) (flatten_one b) in
    (joined, ap (λ n. n + length b) h ∙ sym (ap length joined ∙ length-append (contents d) b))

-- An argument that is empty adds nothing, whether it is skipped or not.
fill_more_cons :
    (b : Bytes) (bs : List Bytes) (d : DataBuffer)
    → fill_more (b ∷ bs) d ≡ fill_more bs (if length b == 0 then d else with_chunk d b)
unfolding fill_more
fill_more_cons b bs d = refl

flatten_empty : (bs : List Bytes) → flatten ([] ∷ bs) ≡ flatten bs
unfolding flatten
flatten_empty bs = refl

contents-fill_more :
    (bufs : List Bytes) (d : DataBuffer)
    → IsCounted d
    → (contents (fill_more bufs d) ≡ contents d ++ flatten bufs) × IsCounted (fill_more bufs d)
contents-fill_more [] d h = unfold fill_more flatten in (sym (append-nil (contents d)), h)
contents-fill_more ([] ∷ bs) d h =
    let rest = contents-fill_more bs d h in rw (fill_more_cons [] bs d, flatten_empty bs) rest
contents-fill_more ((x ∷ xs) ∷ bs) d h =
    let b = x ∷ xs in
    let chunk = contents-with_chunk d b h in
    let rest = contents-fill_more bs (with_chunk d b) chunk.1 in
    let skipped : (length b == 0) ≡ false = ground arith in
    rw (fill_more_cons b bs d, skipped)
      (
        rest.0
            ∙ ap (λ t. t ++ flatten bs) chunk.0
            ∙ append_assoc (contents d) b (flatten bs)
            ∙ unfold flatten in refl,
        rest.1,
      )

-- If the byte count is right, `fill` appends its arguments, in their order, behind what is held, and keeps
-- the count right.
pub contents-fill :
    (a : Bytes) (bufs : List Bytes) (d : DataBuffer)
    → IsCounted d
    → (contents (fill a bufs d) ≡ contents d ++ (a ++ flatten bufs)) × IsCounted (fill a bufs d)
unfolding fill
contents-fill a bufs d h =
    let chunk = contents-with_chunk d a h in
    let rest = contents-fill_more bufs (with_chunk d a) chunk.1 in
    (
      rest.0 ∙ ap (λ t. t ++ flatten bufs) chunk.0 ∙ append_assoc (contents d) a (flatten bufs),
      rest.1,
    )
