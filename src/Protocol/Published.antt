-- ===== src/Protocol/Published.antt =====
-- What `publish` of core/src/protocol.ts writes, and when it throws.
use mathlib.Core.List.{flatten}
use mathlib.Core.Path.{subst}
use nats_js.Base.{
  ℕ, suc, ◌+◌, ◌≤◌, ◌≡◌, refl, sym, ap, ◌∙◌, arith, Bool, true, false, Option, none, some, ◌++◌,
  ltb, if◌then◌else◌, Bytes, Text, codes, length, length-append, Result, ok, failed, append_assoc,
  inl, inr, Bool-cases, ◌↔◌,
}
use nats_js.Headers.Table.{MsgHdrs}
use nats_js.Headers.Wire.{to_text}
use nats_js.Headers.Canonical.{ok_inj}
use nats_js.Buffers.DataBuffer.Contents.{IsCounted}
use nats_js.Protocol.Outbound.{send_command}
use nats_js.Protocol.Ordered.{stream, send_command-Adds}
use nats_js.Protocol.Publish.{
  PublishError, max_payload_exceeded, Info, PublishOptions, Publisher, trace_headers, too_long,
  pub_line, header_bytes, header_length, payloads, publish_with, publish_traced, publish,
}
use nats_js.Protocol.Announced.{announcement, line_lem}

-- No longer than the `max_payload` of an info that is known.
abbrev pub Fits : Option Info → ℕ → Type 0
Fits none n = Unit
Fits (some i) n = n ≤ i.max_payload

not_failed :
    (b : Bool) (p : Publisher)
    → b ≡ false
    → ¬ (
        ◌≡◌ {A = Result PublishError Publisher}
          (if b then failed max_payload_exceeded else ok p)
          (failed max_payload_exceeded))
not_failed true p e r = ground arith
not_failed false p e r = ground arith

module _ (encode : Text → Bytes) where
  abbrev pub header_size : Option MsgHdrs → Option ℕ
  header_size none = none
  header_size (some h) = some (length (encode (to_text h)))

  -- All that is written of a message: its line, its headers and its payload.
  abbrev pub whole : Text → Bytes → PublishOptions → Option MsgHdrs → Bytes
  whole subject data_bytes o hdrs =
      encode (
        announcement subject o.reply (header_size hdrs)
          (length (header_bytes encode hdrs ++ data_bytes)))
      ++ ((header_bytes encode hdrs ++ data_bytes) ++ codes "\r\n")

  same_size : (h : Option MsgHdrs) → header_length encode h ≡ header_size h
  same_size none = refl
  same_size (some h) = refl

  flatten-payloads :
      (hdrs : Option MsgHdrs) (d : Bytes)
      → flatten (payloads encode hdrs d) ≡ (header_bytes encode hdrs ++ d) ++ codes "\r\n"
  unfolding flatten
  flatten-payloads none d = refl
  flatten-payloads (some h) d = sym (append_assoc (encode (to_text h)) d (codes "\r\n"))

  -- What a message that is published leaves behind.
  abbrev pub IsPublished :
      Text → Bytes → PublishOptions → Option MsgHdrs → Publisher → Publisher → Type 0
  IsPublished subject d o hdrs p p' =
      (stream p'.link ≡ stream p.link ++ whole subject d o hdrs)
      × (p'.out_bytes ≡ p.out_bytes + length (header_bytes encode hdrs ++ d))
      × (p'.out_msgs ≡ suc p.out_msgs)
      × Fits p.info (length (header_bytes encode hdrs ++ d))

  too_long-Fits : (i : Option Info) (n : ℕ) → too_long i n ≡ false → Fits i n
  too_long-Fits none n e = tt
  too_long-Fits (some i) n e = ground arith

  sum :
      (h : Option MsgHdrs) (d : Bytes)
      → length d + length (header_bytes encode h) ≡ length (header_bytes encode h ++ d)
  sum h d = omega (arith, length-append (header_bytes encode h) d)

  -- The state that `publish_with` makes of a message of the given length.
  after : Text → Bytes → PublishOptions → Option MsgHdrs → Publisher → ℕ → Publisher
  after subject d o h p len = record (p) {
    out_bytes = p.out_bytes + len;
    out_msgs = suc p.out_msgs;
    link =
        send_command (encode (pub_line subject o.reply (header_length encode h) len))
          (payloads encode h d) p.link;
  }

  after-IsPublished :
      (subject : Text) (d : Bytes) (o : PublishOptions) (h : Option MsgHdrs) (p : Publisher)
      → IsCounted p.link.outbound
      → too_long p.info (length (header_bytes encode h ++ d)) ≡ false
      → IsPublished subject d o h p (after subject d o h p (length (header_bytes encode h ++ d)))
  unfolding after
  after-IsPublished subject d o h p c e =
      let line =
        encode (
          pub_line subject o.reply (header_length encode h)
            (length (header_bytes encode h ++ d))) in
      (
        (send_command-Adds line (payloads encode h d) p.link c).0
            ∙ ap (λ x. stream p.link ++ (line ++ x)) (flatten-payloads h d)
            ∙ ap
                (λ x. stream p.link ++ (encode x ++ ((header_bytes encode h ++ d) ++ codes "\r\n")))
                (line_lem subject o.reply (header_length encode h)
                    (length (header_bytes encode h ++ d))
                  ∙ ap (λ x. announcement subject o.reply x (length (header_bytes encode h ++ d)))
                      (same_size h)),
        refl,
        refl,
        too_long-Fits p.info (length (header_bytes encode h ++ d)) e,
      )

  publish_with-cases :
      (subject : Text) (d : Bytes) (o : PublishOptions) (h : Option MsgHdrs) (p : Publisher)
      → publish_with encode subject d o h p ≡ (
          if too_long p.info (length (header_bytes encode h ++ d))
          then failed max_payload_exceeded
          else ok (after subject d o h p (length (header_bytes encode h ++ d))))
  unfolding publish_with after
  publish_with-cases subject d o h p =
      ap
        (λ n.
          if too_long p.info n then failed max_payload_exceeded else ok (after subject d o h p n))
        (sum h d)

  publish-cases :
      (subject : Text) (d : Bytes) (o : PublishOptions) (h : Option MsgHdrs) (p : Publisher)
      → trace_headers o ≡ ok h
      → publish encode subject d o p ≡ (
          if too_long p.info (length (header_bytes encode h ++ d))
          then failed max_payload_exceeded
          else ok (after subject d o h p (length (header_bytes encode h ++ d))))
  unfolding publish publish_traced
  publish-cases subject d o h p e =
      ap (λ r. publish_traced encode subject d o r p) e ∙ publish_with-cases subject d o h p

  -- A message that `publish` accepts is written whole: its line, which is PUB or HPUB, the subject, the reply if there
  -- is one, with headers their length, and the length of headers and payload together, with blanks between; then its headers, payload and line end; it is counted, and it is no longer than the
  -- max_payload of an info that is known. The byte count of the buffer is right before.
  pub publish-IsPublished :
      (subject : Text) (d : Bytes) (o : PublishOptions) (h : Option MsgHdrs) (p p' : Publisher)
      → IsCounted p.link.outbound
      → trace_headers o ≡ ok h
      → publish encode subject d o p ≡ ok p'
      → IsPublished subject d o h p p'
  publish-IsPublished subject d o h p p' c e q =
      choose (too_long p.info (length (header_bytes encode h ++ d))) refl
        (sym (publish-cases subject d o h p e) ∙ q)
    where
      choose :
          (b : Bool)
          → too_long p.info (length (header_bytes encode h ++ d)) ≡ b
          → ◌≡◌ {A = Result PublishError Publisher}
              (if b
                then failed max_payload_exceeded
                else ok (after subject d o h p (length (header_bytes encode h ++ d))))
              (ok p')
          → IsPublished subject d o h p p'
      choose true t r = ground arith
      choose false t r =
          subst (IsPublished subject d o h p) (ok_inj r) (after-IsPublished subject d o h p c t)

  -- With headers that can be made, `publish` throws exactly if an info is known whose max_payload is less than the
  -- headers and the payload together.
  pub publish-failed :
      (subject : Text) (d : Bytes) (o : PublishOptions) (h : Option MsgHdrs) (p : Publisher)
      → trace_headers o ≡ ok h
      → (publish encode subject d o p ≡ failed max_payload_exceeded)
        ↔ (¬ Fits p.info (length (header_bytes encode h ++ d)))
  publish-failed subject d o h p e = choose p.info (publish-cases subject d o h p e)
    where
      choose :
          (i : Option Info)
          → publish encode subject d o p ≡ (
              if too_long i (length (header_bytes encode h ++ d))
              then failed max_payload_exceeded
              else ok (after subject d o h p (length (header_bytes encode h ++ d))))
          → (publish encode subject d o p ≡ failed max_payload_exceeded)
            ↔ (¬ Fits i (length (header_bytes encode h ++ d)))
      choose none q = (λ r. absurd (let z = sym q ∙ r in ground arith), λ n. absurd (n tt))
      choose (some i) q =
          elim (Bool-cases (ltb i.max_payload (length (header_bytes encode h ++ d)))) [
            | inl t ↦ (λ r f. ground arith, λ n. q ∙ rw t refl)
            | inr t ↦ (
              λ r. absurd (
                  not_failed (ltb i.max_payload (length (header_bytes encode h ++ d)))
                    (after subject d o h p (length (header_bytes encode h ++ d))) t (sym q ∙ r)),
              λ n. absurd (n (ground arith)),
            )
          ]
