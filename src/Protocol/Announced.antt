-- ===== src/Protocol/Announced.antt =====
-- The line that announces a message in core/src/protocol.ts.
use nats_js.Base.{
  print_ℕ, List, [], ◌∷◌, ℕ, ◌≡◌, refl, ap, Option, none, some, ◌++◌, Text, codes, append_assoc,
}
use nats_js.Protocol.Publish.{pub_line}

-- Words with a blank between them, and the line end.
abbrev pub line_of : Text → List Text → Text
line_of w [] = w ++ codes "\r\n"
line_of w (v ∷ ws) = w ++ (codes " " ++ line_of v ws)

abbrev pub reply_first : Text → List Text → List Text
reply_first [] ws = ws
reply_first (c ∷ cs) ws = (c ∷ cs) ∷ ws

-- The line of a message: its name, the subject, the reply if there is one, with headers their length, and the length
-- of headers and payload together.
abbrev pub announcement : Text → Text → Option ℕ → ℕ → Text
announcement subject reply none len =
    line_of (codes "PUB") (subject ∷ reply_first reply (print_ℕ len ∷ []))
announcement subject reply (some hlen) len =
    line_of (codes "HPUB") (subject ∷ reply_first reply (print_ℕ hlen ∷ print_ℕ len ∷ []))

pub line_lem :
    (subject reply : Text) (hlen : Option ℕ) (len : ℕ)
    → pub_line subject reply hlen len ≡ announcement subject reply hlen len
line_lem subject [] none len = refl
line_lem subject (c ∷ cs) none len =
    ap (λ x. codes "PUB " ++ (subject ++ (codes " " ++ c ∷ x)))
      (append_assoc cs (codes " ") (print_ℕ len ++ codes "\r\n"))
line_lem subject [] (some hlen) len = refl
line_lem subject (c ∷ cs) (some hlen) len =
    ap (λ x. codes "HPUB " ++ (subject ++ (codes " " ++ c ∷ x)))
      (append_assoc cs (codes " ") (print_ℕ hlen ++ (codes " " ++ (print_ℕ len ++ codes "\r\n"))))
