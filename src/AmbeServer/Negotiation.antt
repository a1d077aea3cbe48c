-- ===== src/AmbeServer/Negotiation.antt =====
-- ambeserver/src/backend/soft.rs: the session that the packets of a client negotiate.
use asl_dmr_bridge.Base.{
  ℕ, ◌≡◌, inl, inr, refl, arith, List, [], ◌∷◌, Bool, true, false, ◌==◌, if◌then◌else◌, list_eq,
  Bool-cases, sym,
}
use mathlib.Core.Path.{subst}
use asl_dmr_bridge.Dv3000.{
  Packet, ambe, ambe_of_bits, audio, control, Result, ok, err, control_reset, control_ratep,
  control_gain, control_prodid, ratep_dmr,
}
use asl_dmr_bridge.Ambe.{Vocoder}
use asl_dmr_bridge.AmbeServer.{SoftBackend, handle_parsed, on_packet, on_ratep, on_gain, is_reset}

-- No rate agreed on, the DMR rate agreed on, another rate refused.
pub data Session : Type 0 where
  fresh ready refused : Session

abbrev pub session_of : Bool → Bool → Session
session_of true acked = refused
session_of false true = ready
session_of false false = fresh

abbrev pub session : {v : Vocoder} → SoftBackend v → Session
session b = session_of b.poisoned b.ratep_acked

-- What a packet does to the session.
abbrev agreed : List ℕ → Session → Session
agreed bytes refused = refused
agreed bytes _ = if list_eq bytes ratep_dmr then ready else refused

abbrev pub negotiate : Packet → Session → Session
negotiate (control field_id bytes) s =
    if field_id == control_reset
    then fresh
    else if field_id == control_ratep
    then agreed bytes s
    else s
negotiate _ s = s

abbrev pub negotiate_parsed : Result (Packet × ℕ) → Session → Session
negotiate_parsed (ok (packet, n)) s = negotiate packet s
negotiate_parsed (err e) s = s

-- Whether a packet carries voice.
abbrev pub carries_voice : Result (Packet × ℕ) → Bool
carries_voice (ok (audio pcm, n)) = true
carries_voice (ok (ambe frame, n)) = true
carries_voice _ = false

refused_stays : (packet : Packet) → is_reset packet ≡ false → negotiate packet refused ≡ refused
refused_stays (control field_id bytes) r = elim (Bool-cases (field_id == control_ratep)) [
  | inl e ↦ simp (r, e) refl
  | inr e ↦ simp (r, e) refl
]
refused_stays (audio pcm) r = refl
refused_stays (ambe frame) r = refl
refused_stays (ambe_of_bits bits bytes) r = refl

reset_renews : (packet : Packet) (s : Session) → is_reset packet ≡ true → fresh ≡ negotiate packet s
reset_renews (control field_id bytes) s r = simp r refl
reset_renews (audio pcm) s r = ground arith
reset_renews (ambe frame) s r = ground arith
reset_renews (ambe_of_bits bits bytes) s r = ground arith

module _ {v : Vocoder} where
  on_ratep-session :
      (bytes : List ℕ) (b : SoftBackend v)
      → b.poisoned ≡ false
      → session (on_ratep bytes b).0 ≡ agreed bytes (session b)
  unfolding on_ratep
  on_ratep-session bytes b p = ground arith

  on_gain-session : (bytes : List ℕ) (b : SoftBackend v) → session (on_gain bytes b).0 ≡ session b
  unfolding on_gain
  on_gain-session [] b = refl
  on_gain-session (x ∷ []) b = refl
  on_gain-session (x ∷ y ∷ rest) b = refl

  by_kind :
      (packet : Packet) (b : SoftBackend v)
      → is_reset packet ≡ false
      → b.poisoned ≡ false
      → session (on_packet packet b).0 ≡ negotiate packet (session b)
  unfolding on_packet
  by_kind (control field_id bytes) b r p = elim (Bool-cases (field_id == control_ratep)) [
    | inl e ↦ simp (r, e) (on_ratep-session bytes b p)
    | inr e ↦ elim (Bool-cases (field_id == control_gain)) [
      | inl f ↦ simp (r, e, f) (on_gain-session bytes b)
      | inr f ↦ elim (Bool-cases (field_id == control_prodid)) [
        | inl g ↦ simp (r, e, f, g) refl
        | inr g ↦ simp (r, e, f, g) refl
      ]
    ]
  ]
  by_kind (audio pcm) b r p = elim (Bool-cases b.ratep_acked) [
    | inl e ↦ simp e refl
    | inr e ↦ simp e refl
  ]
  by_kind (ambe frame) b r p = elim (Bool-cases b.ratep_acked) [
    | inl e ↦ simp e refl
    | inr e ↦ simp e refl
  ]
  by_kind (ambe_of_bits bits bytes) b r p = refl

  pub handle_parsed-session :
      (r : Result (Packet × ℕ)) (b : SoftBackend v)
      → session (handle_parsed r b).0 ≡ negotiate_parsed r (session b)
  unfolding handle_parsed
  handle_parsed-session (err e) b = refl
  handle_parsed-session (ok (packet, n)) b = elim (Bool-cases (is_reset packet)) [
    | inl r ↦ simp r (reset_renews packet (session b) r)
    | inr r ↦ elim (Bool-cases b.poisoned) [
      | inl p ↦ simp (r, p) (sym (refused_stays packet r))
      | inr p ↦
          simp (r, p)
            (subst
              (λ t. session (on_packet packet b).0 ≡ negotiate packet (session_of t b.ratep_acked))
              p (by_kind packet b r p))
    ]
  ]
