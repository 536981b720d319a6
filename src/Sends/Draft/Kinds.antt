-- ===== src/Sends/Draft/Kinds.antt =====
-- The draft requests that the checks of `handleCreateDraft` (whatsapp-bridge/sends.go) let through.
use whatsapp_mcp_plugin.Prelude.{
  ℕ, ◌≡◌, refl, subst, inl, inr, String, false, Option, none, some, same, same→eq, arith,
  Bool-cases, if◌then◌else◌,
}
use whatsapp_mcp_plugin.Sends.{Result, ok, err, ◌>>=◌, refuse_if}
use whatsapp_mcp_plugin.Sends.Media.{DraftRequest}
use whatsapp_mcp_plugin.Sends.Draft.{validate, validate_type}

-- The five kinds of draft that pass the checks; a text draft has a text.
pub data Kind (req : DraftRequest) : Type 0 where
  text : req.send_type ≡ "text" → same req.text "" ≡ false → Kind req
  reply_quote : req.send_type ≡ "reply_quote" → Kind req
  reaction : req.send_type ≡ "reaction" → Kind req
  file : req.send_type ≡ "file" → Kind req
  audio_file : req.send_type ≡ "audio" → Kind req

err-ne-ok {ℓ} : {A : Type ℓ} {code : ℕ} {message : String} {a : A} → err code message ≡ ok a → ⊥
err-ne-ok h = cc

filled_text :
    (req : DraftRequest)
    → refuse_if (same req.text "") 400 "text required for send_type=text" ≡ ok tt
    → same req.text "" ≡ false
filled_text req e = elim (Bool-cases (same req.text "")) [
  | inl f ↦ absurd (err-ne-ok (rw f at e))
  | inr f ↦ f
]

-- The switch refuses every other type.
validate_type-Kind : (req : DraftRequest) → validate_type req.send_type req ≡ ok tt → Kind req
unfolding validate_type
validate_type-Kind req e = elim (Bool-cases (same req.send_type "text")) [
  | inl t ↦ text (same→eq _ _ t) (filled_text req (rw t at e))
  | inr n ↦ elim (Bool-cases (same req.send_type "reply_quote")) [
    | inl t ↦ reply_quote (same→eq _ _ t)
    | inr n' ↦ elim (Bool-cases (same req.send_type "reaction")) [
      | inl t ↦ reaction (same→eq _ _ t)
      | inr n'' ↦ elim (Bool-cases (same req.send_type "file")) [
        | inl t ↦ file (same→eq _ _ t)
        | inr n''' ↦ audio_file (same→eq _ _ (ground arith))
      ]
    ]
  ]
]

checked-Kind :
    (b : DraftRequest) (send_type : String) (c : Result Unit) {req : DraftRequest}
    → validate_type send_type b ≡ c
    → (c >>= λ _. ok (record b { send_type = send_type })) ≡ ok req
    → Kind req
unfolding validate_type
checked-Kind b send_type (ok u) e f =
    subst Kind (cc) (validate_type-Kind (record b { send_type = send_type }) e)
checked-Kind b send_type (err code message) e f = cc

pub validate-Kind :
    (body : Option DraftRequest) (req : DraftRequest) → validate body ≡ ok req → Kind req
unfolding validate
validate-Kind none req e = cc
validate-Kind (some b) req e = elim (Bool-cases (same b.recipient_jid "")) [
  | inl n ↦ absurd (err-ne-ok (rw n at e))
  | inr n ↦
      checked-Kind b (if same b.send_type "" then "text" else b.send_type)
        (validate_type (if same b.send_type "" then "text" else b.send_type) b) refl (rw n at e)
]
