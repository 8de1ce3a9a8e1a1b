-- ===== src/Buffers/DataBuffer.antt =====
-- core/src/databuffer.ts: the queue of chunks behind the outbound and inbound data of a connection.
pub mod Copying
pub mod Contents
pub mod Ends
use mathlib.Core.List.{flatten}
use nats_js.Base.{
  ℕ, zero, suc, ◌+◌, ◌-◌, Bytes, Option, none, some, List, [], ◌∷◌, ◌++◌, ltb, ◌==◌, if◌then◌else◌,
  length, take, drop,
}

pub record DataBuffer : Type 0 where
  pub buffers : List Bytes
  pub byte_length : ℕ

abbrev pub new_data_buffer : DataBuffer
new_data_buffer = record { buffers = []; byte_length = 0 }

-- `new Uint8Array(n)`
abbrev pub zeros : ℕ → Bytes
zeros zero = []
zeros (suc n) = 0 ∷ zeros n

-- `out.set(b, index)`, where `b` fits: what it does not fit is an error, which a right byte count rules out.
abbrev pub set_at : Bytes → ℕ → Bytes → Bytes
set_at out index b = take index out ++ (b ++ drop (index + length b) out)

-- The loop that copies chunk after chunk into `out`, from `index` on.
unfoldable pub copy_all : Bytes → ℕ → List Bytes → Bytes
copy_all out index [] = out
copy_all out index (b ∷ bs) = copy_all (set_at out index b) (index + length b) bs

-- The loop that adds up the lengths.
abbrev pub sum_lengths : ℕ → List Bytes → ℕ
sum_lengths max [] = max
sum_lengths max (b ∷ bs) = sum_lengths (max + length b) bs

-- `DataBuffer.concat`
unfoldable pub concat : List Bytes → Bytes
unfolding copy_all
concat bufs = copy_all (zeros (sum_lengths 0 bufs)) 0 bufs

unfoldable pub reset : DataBuffer → DataBuffer
reset d = record { buffers = []; byte_length = 0 }

unfoldable pub pack : DataBuffer → DataBuffer
unfolding copy_all
pack d =
    if ltb 1 (length d.buffers)
    then record {
      buffers = copy_all (zeros d.byte_length) 0 d.buffers ∷ [];
      byte_length = d.byte_length;
    }
    else d

-- `shift`, on the list of the chunks.
unfoldable pub shift_first : List Bytes → DataBuffer → DataBuffer × Bytes
shift_first [] d = (d, [])
shift_first (a ∷ rest) d = (record { buffers = rest; byte_length = d.byte_length - length a }, a)

unfoldable pub shift : DataBuffer → DataBuffer × Bytes
unfolding shift_first
shift d = shift_first d.buffers d

-- `n === undefined || n > max ? max : n`
unfoldable pub clamp : Option ℕ → ℕ → ℕ
clamp none max = max
clamp (some n) max = if ltb max n then max else n

-- The packed buffer `v` gives `n` bytes away, and keeps the others.
unfoldable pub split_off : ℕ → Bytes → DataBuffer → DataBuffer × Bytes
split_off n v d = (
  record {
    buffers = if ltb n d.byte_length then drop n v ∷ [] else [];
    byte_length = d.byte_length - n;
  },
  take n v,
)

unfoldable pub drain_packed : Option ℕ → List Bytes → DataBuffer → DataBuffer × Bytes
unfolding clamp split_off
drain_packed n (v ∷ []) d = split_off (clamp n d.byte_length) v d
drain_packed n _ d = (d, [])

unfoldable pub drain : Option ℕ → DataBuffer → DataBuffer × Bytes
unfolding pack drain_packed
drain n d = let packed = pack d in drain_packed n packed.buffers packed

unfoldable pub fill_more : List Bytes → DataBuffer → DataBuffer
fill_more [] d = d
fill_more (b ∷ bs) d = fill_more bs (
    if length b == 0
    then d
    else record { buffers = d.buffers ++ b ∷ []; byte_length = d.byte_length + length b })

unfoldable pub fill : Bytes → List Bytes → DataBuffer → DataBuffer
unfolding fill_more
fill a bufs d =
    fill_more bufs
      (record { buffers = d.buffers ++ a ∷ []; byte_length = d.byte_length + length a })

-- `peek`: packs, and returns the first chunk.
unfoldable pub first : List Bytes → Bytes
first [] = []
first (v ∷ _) = v

unfoldable pub peek : DataBuffer → DataBuffer × Bytes
unfolding pack first
peek d = let packed = pack d in (packed, first packed.buffers)

unfoldable pub size : DataBuffer → ℕ
size d = d.byte_length

-- The bytes that are buffered.
abbrev pub contents : DataBuffer → Bytes
contents d = flatten d.buffers
