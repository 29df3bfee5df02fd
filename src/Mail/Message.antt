-- ===== src/Mail/Message.antt =====
-- The lines of the text that `Send` writes.
use Prim.Native.String.{◌++◌ as append}
use text.Mathlib.TextLemmas.{nil-append, cons-append, append_assoc}
use rv_tx.Base.{◌≡◌, refl, sym, ap, ◌∙◌, String, true, ◌∷◌}
use rv_tx.Base.Text.{split}
use rv_tx.Base.Pieces.{lacks, lacks-append, split-at}
use rv_tx.Mail.{message}

abbrev pub line : String → String → String
line name value = append name (append value "\r")

crlf-append : (t : String) → append "\r\n" t ≡ append "\r" (String.◌∷◌ "\n" t)
crlf-append t =
    append_assoc "\r" "\n" t
    ∙ ap (append "\r") (cons-append "\n" String.[] t ∙ ap (String.◌∷◌ "\n") (nil-append t))

append-line :
    (name value rest : String)
    → append name (append value (append "\r\n" rest))
      ≡ append (line name value) (String.◌∷◌ "\n" rest)
append-line name value rest =
    ap (append name)
      (ap (append value) (crlf-append rest) ∙ sym (append_assoc value "\r" (String.◌∷◌ "\n" rest)))
    ∙ sym (append_assoc name (append value "\r") (String.◌∷◌ "\n" rest))

-- A header field that ends in CR and LF, before other text.
split-line :
    (name value rest : String)
    → lacks 10 name ≡ true
    → lacks 10 value ≡ true
    → split 10 (append name (append value (append "\r\n" rest))) ≡ line name value ∷ split 10 rest
unfolding lacks
split-line name value rest n v =
    ap (split 10) (append-line name value rest)
    ∙ split-at 10 (line name value) "\n" rest
        (lacks-append 10 name (append value "\r") n (lacks-append 10 value "\r" v refl)) refl

split-crlf : (rest : String) → split 10 (append "\r\n" rest) ≡ "\r" ∷ split 10 rest
unfolding lacks
split-crlf rest = ap (split 10) (crlf-append rest) ∙ split-at 10 "\r" "\n" rest refl refl

-- The line breaks on their own.
rejoined :
    (from to subject body : String)
    → message from to subject body
      ≡ append "From: " (
          append from (
            append "\r\n" (
              append "To: " (
                append to (
                  append "\r\n" (
                    append "Subject: "
                      (append subject (append "\r\n" (append "\r\n" (append body "\r\n"))))))))))
unfolding message
rejoined from to subject body =
    rw (append_assoc "\r\n" "\r\n" (append body "\r\n"))
      (rw (append_assoc "\r\n" "Subject: ") (rw (append_assoc "\r\n" "To: ") refl))

-- If the sender, the receiver and the subject have no line feed, the lines of the written text are the three
-- header fields, an empty line and the lines of the body: none of them adds a header field.
pub split-message :
    (from to subject body : String)
    → lacks 10 from ≡ true
    → lacks 10 to ≡ true
    → lacks 10 subject ≡ true
    → split 10 (message from to subject body)
      ≡ line "From: " from
        ∷ line "To: " to
        ∷ line "Subject: " subject
        ∷ "\r"
        ∷ split 10 (append body "\r\n")
unfolding lacks
split-message from to subject body f t s =
    ap (split 10) (rejoined from to subject body)
    ∙ split-line "From: " from _ refl f
    ∙ ap (λ ls. line "From: " from ∷ ls) (split-line "To: " to _ refl t)
    ∙ ap (λ ls. line "From: " from ∷ line "To: " to ∷ ls) (split-line "Subject: " subject _ refl s)
    ∙ ap (λ ls. line "From: " from ∷ line "To: " to ∷ line "Subject: " subject ∷ ls)
        (split-crlf (append body "\r\n"))
