-- ===== src/Homebrew/Login/Accepted.antt =====
-- bridge/src/homebrew_client.rs: when the master lets the client in, and what was said until then.
use asl_dmr_bridge.Base.{
  ℕ, ◌≡◌, ◌↔◌, refl, arith, List, [], ◌∷◌, ◌++◌, Bool, true, false, if◌then◌else◌, Bool-cases, inl,
  inr, ap, sym, ◌∙◌,
}
use mathlib.Core.List.{append-nil, append_assoc}
use asl_dmr_bridge.Homebrew.{
  NetworkError, tag_rptack, tag_mstnak, starts_with, build_tagged, build_rptk, Out, to_master,
}
use asl_dmr_bridge.Homebrew.Login.{
  AuthEvent, arrived, recv_failed, cancelled, expired, wait_nonce, wait_key, wait_config, pending,
  accepted, refused, Credentials, is_challenge, nonce_of, tag_rptl, login_step, login_from,
  authenticate, sending,
}

-- The reply to RPTK and the reply to the configuration are both acknowledged.
abbrev pub LastAck : List AuthEvent → Type 0
LastAck (arrived bytes sent ∷ es) = starts_with tag_rptack bytes ≡ true
LastAck _ = ⊥

abbrev pub TwoAcks : List AuthEvent → Type 0
TwoAcks (arrived bytes true ∷ es) = (starts_with tag_rptack bytes ≡ true) × LastAck es
TwoAcks _ = ⊥

-- A challenge with this nonce comes before any refusal, and is followed by two acknowledgements.
abbrev pub LetsIn : List ℕ → List AuthEvent → Type 0
LetsIn nonce (arrived bytes sent ∷ es) =
    (starts_with tag_mstnak bytes ≡ false)
    × (if is_challenge bytes
        then (nonce_of bytes ≡ nonce) × (sent ≡ true) × TwoAcks es
        else LetsIn nonce es)
LetsIn nonce _ = ⊥

ack_no_nak :
    (bytes : List ℕ) → starts_with tag_rptack bytes ≡ true → starts_with tag_mstnak bytes ≡ false
unfolding starts_with
ack_no_nak [] h = ground arith
ack_no_nak (b ∷ bytes) h = ground arith

module _ (who : Credentials) where
  settled_accepted :
      (es : List AuthEvent) (out : List Out) → login_from who es (accepted, out) ≡ (accepted, out)
  unfolding login_from
  settled_accepted [] out = refl
  settled_accepted (e ∷ es) out = refl

  not_refused :
      (es : List AuthEvent) (x : NetworkError) (out out' : List Out)
      → login_from who es (refused x, out) ≡ (accepted, out')
      → ⊥
  unfolding login_from
  not_refused [] x out out' h = ground arith
  not_refused (e ∷ es) x out out' h = ground arith

  -- The last stage.
  from_config :
      (es : List AuthEvent) (out out' : List Out)
      → (login_from who es (pending wait_config, out) ≡ (accepted, out'))
        ↔ (LastAck es × (out ≡ out'))
  unfolding login_from login_step
  from_config [] out out' = (λ h. ground arith, λ h. absurd h.0)
  from_config (recv_failed ∷ es) out out' =
      (λ h. absurd (not_refused es _ _ out' h), λ h. absurd h.0)
  from_config (cancelled ∷ es) out out' = (λ h. absurd (not_refused es _ _ out' h), λ h. absurd h.0)
  from_config (expired ∷ es) out out' = (λ h. absurd (not_refused es _ _ out' h), λ h. absurd h.0)
  from_config (arrived bytes sent ∷ es) out out' = (
    λ h. elim (Bool-cases (starts_with tag_mstnak bytes)) [
      | inl a ↦ absurd (not_refused es _ _ out' (simp a at h))
      | inr a ↦ elim (Bool-cases (starts_with tag_rptack bytes)) [
        | inr b ↦ absurd (not_refused es _ _ out' (simp (a, b) at h))
        | inl b ↦ (
          b,
          sym (append-nil out)
              ∙ ap (λ x. x.1) (sym (settled_accepted es (out ++ [])) ∙ (simp (a, b) at h)),
        )
      ]
    ],
    λ h.
        simp (ack_no_nak bytes h.0, h.0)
          (settled_accepted es (out ++ []) ∙ ap (λ o. (accepted, o)) (append-nil out ∙ h.1)),
  )

  -- The stage before it.
  from_key :
      (es : List AuthEvent) (out out' : List Out)
      → (login_from who es (pending wait_key, out) ≡ (accepted, out'))
        ↔ (TwoAcks es × (out ++ (to_master who.config_packet ∷ []) ≡ out'))
  unfolding login_from login_step
  from_key [] out out' = (λ h. ground arith, λ h. absurd h.0)
  from_key (recv_failed ∷ es) out out' = (λ h. absurd (not_refused es _ _ out' h), λ h. absurd h.0)
  from_key (cancelled ∷ es) out out' = (λ h. absurd (not_refused es _ _ out' h), λ h. absurd h.0)
  from_key (expired ∷ es) out out' = (λ h. absurd (not_refused es _ _ out' h), λ h. absurd h.0)
  from_key (arrived bytes false ∷ es) out out' = (
    λ h. elim (Bool-cases (starts_with tag_mstnak bytes)) [
      | inl a ↦ absurd (not_refused es _ _ out' (simp a at h))
      | inr a ↦ elim (Bool-cases (starts_with tag_rptack bytes)) [
        | inr b ↦ absurd (not_refused es _ _ out' (simp (a, b) at h))
        | inl b ↦ absurd (not_refused es _ _ out' (simp (a, b) at h))
      ]
    ],
    λ h. absurd h.0,
  )
  from_key (arrived bytes true ∷ es) out out' = (
    λ h. elim (Bool-cases (starts_with tag_mstnak bytes)) [
      | inl a ↦ absurd (not_refused es _ _ out' (simp a at h))
      | inr a ↦ elim (Bool-cases (starts_with tag_rptack bytes)) [
        | inr b ↦ absurd (not_refused es _ _ out' (simp (a, b) at h))
        | inl b ↦
            let (acks, said) =
              (from_config es (out ++ (to_master who.config_packet ∷ [])) out').0
                (simp (a, b) at h) in
            ((b, acks), said)
      ]
    ],
    λ h.
        simp (ack_no_nak bytes h.0.0, h.0.0)
          ((from_config es (out ++ (to_master who.config_packet ∷ [])) out').1 (h.0.1, h.1)),
  )

  -- The answer to the challenge goes out, or the sequence ends.
  from_challenge :
      (sent : Bool) (packet : List ℕ) (es : List AuthEvent) (out out' : List Out)
      → (login_from who es
            ((sending sent packet wait_key).0, out ++ (sending sent packet wait_key).1)
          ≡ (accepted, out'))
        ↔ ((sent ≡ true)
            × TwoAcks es
            × (out ++ (to_master packet ∷ to_master who.config_packet ∷ []) ≡ out'))
  from_challenge false packet es out out' =
      (λ h. absurd (not_refused es _ _ out' h), λ h. absurd (wrong h.0))
    where
      wrong : false ≡ true → ⊥
      wrong e = ground arith
  from_challenge true packet es out out' = (
    λ h.
        let (acks, said) = (from_key es (out ++ (to_master packet ∷ [])) out').0 h in
        (
          refl,
          acks,
          sym (append_assoc out (to_master packet ∷ []) (to_master who.config_packet ∷ [])) ∙ said,
        ),
    λ h.
        (from_key es (out ++ (to_master packet ∷ [])) out').1
          (h.1, append_assoc out (to_master packet ∷ []) (to_master who.config_packet ∷ []) ∙ h.2),
  )

  -- What is said after RPTL.
  abbrev answers : List ℕ → List Out
  answers nonce =
      to_master (build_rptk who.sha256 who.dmr_id nonce who.password)
      ∷ to_master who.config_packet
      ∷ []

  from_nonce :
      (es : List AuthEvent) (first out' : List Out)
      → (login_from who es (pending wait_nonce, first) ≡ (accepted, out'))
        ↔ ((nonce : List ℕ) × LetsIn nonce es × (first ++ answers nonce ≡ out'))
  unfolding login_from login_step
  from_nonce [] out out' = (λ h. ground arith, λ h. absurd h.1)
  from_nonce (recv_failed ∷ es) out out' =
      (λ h. absurd (not_refused es _ _ out' h), λ h. absurd h.1)
  from_nonce (cancelled ∷ es) out out' = (λ h. absurd (not_refused es _ _ out' h), λ h. absurd h.1)
  from_nonce (expired ∷ es) out out' = (λ h. absurd (not_refused es _ _ out' h), λ h. absurd h.1)
  from_nonce (arrived bytes sent ∷ es) out out' = elim (Bool-cases (starts_with tag_mstnak bytes)) [
    | inl a ↦
        (λ h. absurd (not_refused es _ _ out' (simp a at h)), λ h. absurd (wrong (sym a ∙ h.1.0)))
    | inr a ↦ elim (Bool-cases (is_challenge bytes)) [
      | inr b ↦ (
        λ h.
            let (nonce, lets, said) = (from_nonce es (out ++ []) out').0 (simp (a, b) at h) in
            (nonce, (a, simp b lets), ap (λ o. o ++ answers nonce) (sym (append-nil out)) ∙ said),
        λ h.
            simp (a, b)
              ((from_nonce es (out ++ []) out').1
                (h.0, simp b at (h.1.1), ap (λ o. o ++ answers h.0) (append-nil out) ∙ h.2)),
      )
      | inl b ↦ (
        λ h.
            let (went, acks, said) =
              (from_challenge sent (build_rptk who.sha256 who.dmr_id (nonce_of bytes) who.password)
                  es out out').0
                (simp (a, b) at h) in
            (nonce_of bytes, (a, simp b (refl, went, acks)), said),
        λ h.
            let (same, went, acks) = challenged (is_challenge bytes) h.0 b h.1.1 in
            simp (a, b)
              ((from_challenge sent (build_rptk who.sha256 who.dmr_id (nonce_of bytes) who.password)
                  es out out').1
                (went, acks, ap (λ n. out ++ answers n) same ∙ h.2)),
      )
    ]
  ]
    where
      wrong : true ≡ false → ⊥
      wrong e = ground arith

      challenged :
          (c : Bool) (nonce : List ℕ)
          → c ≡ true
          → (if c then (nonce_of bytes ≡ nonce) × (sent ≡ true) × TwoAcks es else LetsIn nonce es)
          → (nonce_of bytes ≡ nonce) × (sent ≡ true) × TwoAcks es
      challenged true nonce e l = l
      challenged false nonce e l = ground arith

  -- The client is let in exactly where the login went out and the master answers it with a challenge
  -- before any refusal, and acknowledges the answer to the challenge and then the configuration; and
  -- then it has sent these three packets, in this order, and nothing else.
  pub authenticate-accepted :
      (sent : Bool) (es : List AuthEvent) (out : List Out)
      → (authenticate who sent es ≡ (accepted, out)) ↔ (
          (sent ≡ true)
          × ((nonce : List ℕ) × LetsIn nonce es
              × (to_master (build_tagged tag_rptl who.dmr_id) ∷ answers nonce ≡ out)))
  unfolding authenticate
  authenticate-accepted true es out = (
    λ h. (refl, (from_nonce es (to_master (build_tagged tag_rptl who.dmr_id) ∷ []) out).0 h),
    λ h. (from_nonce es (to_master (build_tagged tag_rptl who.dmr_id) ∷ []) out).1 h.1,
  )
  authenticate-accepted false es out =
      (λ h. absurd (not_refused es _ _ out h), λ h. absurd (wrong h.0))
    where
      wrong : false ≡ true → ⊥
      wrong e = ground arith
