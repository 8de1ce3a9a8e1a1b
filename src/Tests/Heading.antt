-- ===== src/Tests/Heading.antt =====
-- The headers of core/src/headers.ts.
use nats_js.Base.{pos, ◌≡◌, refl, arith, map, failed, [], ◌∷◌, ◌++◌, codes, inr, ok}
use nats_js.Headers.Names.{
  canonical_mime_header_key, bad_header_name, exact, canonical_mime, all_chars, trim,
}
use nats_js.Headers.Table.{MsgHdrs, headers, append, set, values, get, array_of, new_msg_hdrs}
use nats_js.Headers.Wire.{to_text, of_text}
use nats_js.Headers.Capitals.{NameChar, capitalised, with_dashes, canonical_lem}
use nats_js.Headers.Valid.{AllValid}
use nats_js.Headers.Built.{Built, by_headers, by_append, by_set, Built-AllValid}
use nats_js.Headers.Setting.{set_lem}
use nats_js.Headers.RoundTrip.{of_text-to_text}

abbrev first : MsgHdrs
first = new_msg_hdrs (pos 503) (codes "No Responders")

abbrev second : MsgHdrs
second = record (first) { entries = record { key = codes "a-b"; vals = codes "x y" ∷ [] } ∷ [] }

abbrev third : MsgHdrs
third = record (first) {
  entries =
      record { key = codes "a-b"; vals = codes "x y" ∷ [] }
      ∷ record { key = codes "C"; vals = codes "z:" ∷ [] }
      ∷ [];
}

first-Built : Built first
unfolding headers
first-Built = by_headers (pos 503) (codes "No Responders") refl

second-Built : Built second
unfolding append
second-Built = by_append (codes "a-b") (codes " x y ") exact first first-Built refl

third-Built : Built third
unfolding set
third-Built = by_set (codes "c") (codes "z:") canonical_mime second second-Built refl

-- A line with an empty value, and one without a colon.
reads_loosely :
    of_text (codes "NATS/1.0  404\r\nx:\r\nno colon\r\n\r\n")
    ≡ ok (record {
      code = pos 404;
      description = [];
      entries = record { key = codes "x"; vals = [] ∷ [] } ∷ [];
    })
unfolding of_text
reads_loosely = refl

not_printable : ¬ NameChar 32
not_printable h = let a = h.0 in omega (arith, a)

canonical_lem_example :
    (canonical_mime_header_key (with_dashes (codes "nats") (codes "MSG" ∷ codes "id" ∷ []))
      ≡ ok (
          with_dashes
            (capitalised (codes "nats"))
            (map capitalised (codes "MSG" ∷ codes "id" ∷ []))))
    × (canonical_mime_header_key (codes "a" ++ 32 ∷ codes "b") ≡ failed bad_header_name)
canonical_lem_example =
    canonical_lem (codes "nats") (codes "MSG" ∷ codes "id" ∷ []) (codes "a") (codes "b") 32
      (ground arith) (ground arith) not_printable

capitals :
    with_dashes (capitalised (codes "nats")) (map capitalised (codes "MSG" ∷ codes "id" ∷ []))
    ≡ codes "Nats-Msg-Id"
capitals = refl

Built-AllValid_example : AllValid third.entries
Built-AllValid_example = Built-AllValid third third-Built

of_text-to_text_example : of_text (to_text third) ≡ ok third
unfolding trim all_chars
of_text-to_text_example =
    of_text-to_text third third-Built
      (inr (502, b'N', codes "o Responders", refl, refl, (refl, refl)))

set_lem_example :
    (values (codes "c") canonical_mime third ≡ ok (codes "z:" ∷ []))
    × (get (codes "c") canonical_mime third ≡ ok (codes "z:"))
    × (array_of (codes "a-b") third.entries ≡ array_of (codes "a-b") second.entries)
unfolding set
set_lem_example =
    set_lem (codes "c") (codes "z:") (codes "a-b") canonical_mime second third refl refl
