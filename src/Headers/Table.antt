-- ===== src/Headers/Table.antt =====
-- The class `MsgHdrsImpl` of core/src/headers.ts.
use nats_js.Base.{
  Bool, true, false, not, ◌&&◌, List, [], ◌∷◌, ◌++◌, map, ◌==◌, if◌then◌else◌, Text, eq_text, ℤ,
  pos, negsuc, ltb_ℤ, leb_ℤ, Result, ok, failed,
}
use nats_js.Base.Errors.{◌>>=◌}
use nats_js.Headers.Names.{
  HeaderError, code_required, description_required, Match, exact, canonical_mime, ignore_case,
  canonical_mime_header_key, valid_header_value, lower_char,
}

-- A key of the map and its array.
pub record Entry : Type 0 where
  pub key : Text
  pub vals : List Text

-- The entries stand in the order in which their keys came into the map.
pub record MsgHdrs : Type 0 where
  pub code : ℤ
  pub description : Text
  pub entries : List Entry

abbrev pub is_empty {ℓ} : {A : Type ℓ} → List A → Bool
is_empty [] = true
is_empty (x ∷ xs) = false

abbrev pub is_zero : ℤ → Bool
is_zero (pos n) = n == 0
is_zero (negsuc n) = false

abbrev pub new_msg_hdrs : ℤ → Text → MsgHdrs
new_msg_hdrs c d = record { code = c; description = d; entries = [] }

unfoldable pub headers : ℤ → Text → Result HeaderError MsgHdrs
headers c d =
    if is_zero c && not (is_empty d)
    then failed code_required
    else if ltb_ℤ (pos 0) c && is_empty d
    then failed description_required
    else ok (new_msg_hdrs c d)

abbrev pub keys : MsgHdrs → List Text
keys h = map (λ e. e.key) h.entries

unfoldable pub keep : (Text → Bool) → List Text → List Text
keep p [] = []
keep p (k ∷ ks) = let rest = keep p ks in if p k then k ∷ rest else rest

unfoldable pub find_keys : Text → Match → MsgHdrs → Result HeaderError (List Text)
unfolding keep canonical_mime_header_key
find_keys k exact h = ok (keep (λ v. eq_text v k) (keys h))
find_keys k canonical_mime h = do
  c ← canonical_mime_header_key k
  ok (keep (λ v. eq_text v c) (keys h))
find_keys k ignore_case h = ok (keep (λ v. eq_text (map lower_char k) (map lower_char v)) (keys h))

-- `headers.get`: the array of a key; `[]` stands for a key that is not there, since no array is empty.
unfoldable pub array_of : Text → List Entry → List Text
array_of k [] = []
array_of k (e ∷ es) = let rest = array_of k es in if eq_text k e.key then e.vals else rest

abbrev pub head_or {ℓ} : {A : Type ℓ} → A → List A → A
head_or d [] = d
head_or d (x ∷ xs) = x

unfoldable pub last_or {ℓ} : {A : Type ℓ} → A → List A → A
last_or d [] = d
last_or d (x ∷ xs) = last_or x xs

abbrev pub first_array : List Text → MsgHdrs → List Text
first_array [] h = []
first_array (k ∷ ks) h = array_of k h.entries

unfoldable pub get : Text → Match → MsgHdrs → Result HeaderError Text
unfolding find_keys array_of
get k m h = do ks ← find_keys k m h; ok (head_or [] (first_array ks h))

unfoldable pub last : Text → Match → MsgHdrs → Result HeaderError Text
unfolding find_keys array_of last_or
last k m h = do ks ← find_keys k m h; ok (last_or [] (first_array ks h))

unfoldable pub has : Text → Match → MsgHdrs → Result HeaderError Bool
unfolding find_keys
has k m h = do ks ← find_keys k m h; ok (not (is_empty ks))

-- `a.push(value)`, on a new array if the key is new.
unfoldable pub push_value : Text → Text → List Entry → List Entry
push_value k v [] = record { key = k; vals = v ∷ [] } ∷ []
push_value k v (e ∷ es) =
    let rest = push_value k v es in
    if eq_text k e.key then (record (e) { vals = e.vals ++ v ∷ [] }) ∷ es else e ∷ rest

-- The key that is looked for: the canonical one if that is asked.
abbrev pub wanted : Match → Text → Text → Text
wanted canonical_mime k ck = ck
wanted exact k ck = k
wanted ignore_case k ck = k

unfoldable pub append : Text → Text → Match → MsgHdrs → Result HeaderError MsgHdrs
unfolding canonical_mime_header_key find_keys valid_header_value push_value
append k v m h = do
  ck ← canonical_mime_header_key k
  ks ← find_keys (wanted m k ck) m h
  value ← valid_header_value v
  ok (record (h) { entries = push_value (head_or (wanted m k ck) ks) value h.entries })

unfoldable pub values_of : List Text → List Entry → List Text
unfolding array_of
values_of [] es = []
values_of (k ∷ ks) es = array_of k es ++ values_of ks es

unfoldable pub values : Text → Match → MsgHdrs → Result HeaderError (List Text)
unfolding find_keys values_of
values k m h = do ks ← find_keys k m h; ok (values_of ks h.entries)

-- `headers.delete`
unfoldable pub delete_key : Text → List Entry → List Entry
delete_key k [] = []
delete_key k (e ∷ es) = let rest = delete_key k es in if eq_text k e.key then rest else e ∷ rest

unfoldable pub delete_keys : List Text → List Entry → List Entry
unfolding delete_key
delete_keys [] es = es
delete_keys (k ∷ ks) es = delete_keys ks (delete_key k es)

unfoldable pub delete : Text → Match → MsgHdrs → Result HeaderError MsgHdrs
unfolding find_keys delete_keys
delete k m h = do ks ← find_keys k m h; ok (record (h) { entries = delete_keys ks h.entries })

unfoldable pub set : Text → Text → Match → MsgHdrs → Result HeaderError MsgHdrs
unfolding delete append
set k v m h = do h' ← delete k m h; append k v m h'

abbrev pub has_error : MsgHdrs → Bool
has_error h = leb_ℤ (pos 300) h.code

-- A record, as the list of its fields; a value that is no array stands for an array of one.
unfoldable pub to_record_keys : List Text → List Entry → List Entry
unfolding array_of
to_record_keys [] es = []
to_record_keys (k ∷ ks) es = record { key = k; vals = array_of k es } ∷ to_record_keys ks es

unfoldable pub to_record : MsgHdrs → List Entry
unfolding to_record_keys
to_record h = to_record_keys (keys h) h.entries

unfoldable pub append_all : Text → List Text → MsgHdrs → Result HeaderError MsgHdrs
unfolding append
append_all k [] h = ok h
append_all k (v ∷ vs) h = do h' ← append k v exact h; append_all k vs h'

unfoldable pub append_fields : List Entry → MsgHdrs → Result HeaderError MsgHdrs
unfolding append_all
append_fields [] h = ok h
append_fields (e ∷ es) h = do h' ← append_all e.key e.vals h; append_fields es h'

unfoldable pub from_record : List Entry → Result HeaderError MsgHdrs
unfolding append_fields
from_record r = append_fields r (new_msg_hdrs (pos 0) [])
