-- ===== src/Headers/Printed.antt =====
-- The lines of headers of core/src/headers.ts, printed and split again.
use nats_js.Base.{◌≡◌, refl, sym, ap, ◌∙◌, true, List, [], ◌∷◌, ◌++◌, Text, append_assoc}
use nats_js.Headers.Names.{cr, lf, space, colon, all_chars, is_value_char}
use nats_js.Headers.Table.{Entry}
use nats_js.Headers.Wire.{value_lines, entry_lines, split_from}
use nats_js.Headers.Lines.{split_from-line, all_chars-append, name-value_chars}
use nats_js.Headers.Valid.{IsName, AllValues, AllValid}

abbrev pub line : Text → Text → Text
line k v = k ++ colon ∷ space ∷ v

abbrev pub texts : Text → List Text → List Text
texts k [] = []
texts k (v ∷ vs) = line k v ∷ texts k vs

abbrev pub all_texts : List Entry → List Text
all_texts [] = []
all_texts (e ∷ es) = texts e.key e.vals ++ all_texts es

abbrev pub glue : List Text → Text
glue [] = []
glue (l ∷ ls) = cr ∷ lf ∷ l ++ glue ls

abbrev pub end_lines : Text
end_lines = cr ∷ lf ∷ cr ∷ lf ∷ []

abbrev pub Plain : List Text → Type 0
Plain [] = Unit
Plain (l ∷ ls) = (all_chars is_value_char l ≡ true) × Plain ls

glue-append : (ls ms : List Text) → glue (ls ++ ms) ≡ glue ls ++ glue ms
glue-append [] ms = refl
glue-append (l ∷ ls) ms =
    ap (λ x. cr ∷ lf ∷ l ++ x) (glue-append ls ms)
    ∙ ap (λ x. cr ∷ lf ∷ x) (sym (append_assoc l (glue ls) (glue ms)))

value_lines-glue : (k : Text) (vs : List Text) → value_lines k vs ≡ glue (texts k vs)
unfolding value_lines
value_lines-glue k [] = refl
value_lines-glue k (v ∷ vs) = ap (λ x. cr ∷ lf ∷ line k v ++ x) (value_lines-glue k vs)

pub entry_lines-glue : (es : List Entry) → entry_lines es ≡ glue (all_texts es)
unfolding entry_lines
entry_lines-glue [] = refl
entry_lines-glue (e ∷ es) =
    ap (λ x. x ++ entry_lines es) (value_lines-glue e.key e.vals)
    ∙ ap (λ x. glue (texts e.key e.vals) ++ x) (entry_lines-glue es)
    ∙ sym (glue-append (texts e.key e.vals) (all_texts es))

pub split_from-glue :
    (l : Text) (ls : List Text)
    → Plain (l ∷ ls)
    → split_from [] (l ++ (glue ls ++ end_lines)) ≡ l ∷ (ls ++ [] ∷ [] ∷ [])
unfolding split_from
split_from-glue l [] h = split_from-line l (cr ∷ lf ∷ []) h.0
split_from-glue l (m ∷ ls) h =
    split_from-line l ((m ++ glue ls) ++ end_lines) h.0
    ∙ ap (λ x. l ∷ split_from [] x) (append_assoc m (glue ls) end_lines)
    ∙ ap (λ x. l ∷ x) (split_from-glue m ls h.1)

Plain-append : (ls ms : List Text) → Plain ls → Plain ms → Plain (ls ++ ms)
Plain-append [] ms h g = g
Plain-append (l ∷ ls) ms h g = (h.0, Plain-append ls ms h.1 g)

texts-Plain : (k : Text) (vs : List Text) → IsName k → AllValues vs → Plain (texts k vs)
unfolding all_chars
texts-Plain k [] n h = tt
texts-Plain k (v ∷ vs) n h = (
  all_chars-append is_value_char k (colon ∷ space ∷ v) (name-value_chars k n) h.0.0,
  texts-Plain k vs n h.1,
)

pub all_texts-Plain : (es : List Entry) → AllValid es → Plain (all_texts es)
all_texts-Plain [] h = tt
all_texts-Plain (e ∷ es) h =
    Plain-append (texts e.key e.vals) (all_texts es) (texts-Plain e.key e.vals h.0 h.2)
      (all_texts-Plain es h.4)
