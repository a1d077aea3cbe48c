-- ===== src/AmbeServer/Session.antt =====
-- ambeserver/src/backend/soft.rs and main.rs: sessions of one client, and who may speak.
use mathlib.Core.Logic.{◌≢◌}
use asl_dmr_bridge.Base.{
  ℕ, ◌-◌, ◌≡◌, inl, inr, refl, arith, List, [], ◌∷◌, Bool, true, false, ◌&&◌, not, Option, none,
  some, ltb, ◌==◌, ==_iff, if◌then◌else◌, Bool-cases, ap, sym,
}
use mathlib.Core.Path.{subst}
use asl_dmr_bridge.Dv3000.{Packet, ambe, ambe_of_bits, audio, control, Result, ok, err, parse}
use asl_dmr_bridge.Ambe.{Vocoder}
use asl_dmr_bridge.AmbeServer.{
  SoftBackend, silent, handle, handle_parsed, on_packet, Server, serve, described_as_reset,
}
use asl_dmr_bridge.AmbeServer.Negotiation.{
  ready, session, negotiate_parsed, carries_voice, handle_parsed-session,
}

module _ {v : Vocoder} where
  -- Voice is answered, and the vocoder works, only in a session that is ready.
  idle_unless_ready :
      (r : Result (Packet × ℕ)) (b : SoftBackend v)
      → carries_voice r ≡ true
      → session b ≢ ready
      → handle_parsed r b ≡ (b, silent)
  unfolding handle_parsed on_packet
  idle_unless_ready (err e) b c n = ground arith
  idle_unless_ready (ok (control field_id bytes, k)) b c n = ground arith
  idle_unless_ready (ok (ambe_of_bits bits bytes, k)) b c n = ground arith
  idle_unless_ready (ok (audio pcm, k)) b c n = elim (Bool-cases b.poisoned) [
    | inl p ↦ simp p refl
    | inr p ↦ elim (Bool-cases b.ratep_acked) [
      | inl a ↦ absurd (n (simp (p, a) refl))
      | inr a ↦ simp (p, a) refl
    ]
  ]
  idle_unless_ready (ok (ambe frame, k)) b c n = elim (Bool-cases b.poisoned) [
    | inl p ↦ simp p refl
    | inr p ↦ elim (Bool-cases b.ratep_acked) [
      | inl a ↦ absurd (n (simp (p, a) refl))
      | inr a ↦ simp (p, a) refl
    ]
  ]

  -- The backend keeps the session that the packets negotiate: a reset opens it anew, the DMR rate makes
  -- it ready, any other rate refuses it until the next reset, and nothing else changes it; and a packet
  -- with voice that comes while it is not ready is dropped and changes nothing.
  pub handle-session :
      (request : List ℕ) (b : SoftBackend v)
      → (session (handle request b).0 ≡ negotiate_parsed (parse request) (session b))
        × (carries_voice (parse request) ≡ true
            → session b ≢ ready
            → handle request b ≡ (b, silent))
  unfolding handle
  handle-session request b =
      (handle_parsed-session (parse request) b, idle_unless_ready (parse request) b)

-- A datagram with its sender and its time.
abbrev pub Datagram : Type 0
Datagram = ℕ × ℕ × List ℕ

module _ {v : Vocoder} where
  -- The replies of a run with the peers that they go to, and the server at its end.
  unfoldable pub serve_all : List Datagram → Server v → List (ℕ × Option (List ℕ)) × Server v
  unfolding serve
  serve_all [] s = ([], s)
  serve_all ((peer, now, bytes) ∷ rest) s =
      let (s', reply) = serve peer now bytes s in
      let (replies, last) = serve_all rest s' in ((peer, reply) ∷ replies, last)

-- The datagrams of one peer, and the replies to it.
abbrev pub from : ℕ → List Datagram → List Datagram
from h [] = []
from h ((peer, now, bytes) ∷ rest) =
    if peer == h then (peer, now, bytes) ∷ from h rest else from h rest

abbrev pub to_peer : ℕ → List (ℕ × Option (List ℕ)) → List (Option (List ℕ))
to_peer h [] = []
to_peer h ((peer, reply) ∷ rest) = if peer == h then reply ∷ to_peer h rest else to_peer h rest

-- Between two datagrams of the holder others come only within a second of the first, and ask for no
-- reset.
abbrev pub Undisturbed : ℕ → ℕ → List Datagram → Type 0
Undisturbed h t [] = Unit
Undisturbed h t ((peer, now, bytes) ∷ rest) =
    if peer == h
    then Undisturbed h now rest
    else (described_as_reset bytes ≡ false) × (ltb (now - t) 1000 ≡ true) × Undisturbed h t rest

module _ {v : Vocoder} (h : ℕ) where
  -- Who holds the server, and who is refused.
  holder_served :
      (now t : ℕ) (bytes : List ℕ) (s : Server v)
      → s.holder ≡ some (h, t)
      → (serve h now bytes s).0.holder ≡ some (h, now)
  unfolding serve
  holder_served now t bytes s e = simp (e, same h, off (described_as_reset bytes)) refl
    where
      same : (n : ℕ) → (n == n) ≡ true
      same n = ground arith

      off : (b : Bool) → (not b && false) ≡ false
      off true = refl
      off false = refl

  other_refused :
      (peer now t : ℕ) (bytes : List ℕ) (s : Server v)
      → s.holder ≡ some (h, t)
      → (peer == h) ≡ false
      → described_as_reset bytes ≡ false
      → ltb (now - t) 1000 ≡ true
      → serve peer now bytes s ≡ (s, none)
  unfolding serve
  other_refused peer now t bytes s e p r k = simp (e, differs p, r, k) refl
    where
      differs : (peer == h) ≡ false → (h == peer) ≡ false
      differs q = ground arith

  -- The holder of the vocoder gets the replies that it would get alone, and leaves the server as it
  -- would alone, if others speak only within a second of its packets and ask for no reset.
  pub serve_all-Undisturbed :
      (es : List Datagram) (t : ℕ) (s : Server v)
      → s.holder ≡ some (h, t)
      → Undisturbed h t es
      → (to_peer h (serve_all es s).0 ≡ to_peer h (serve_all (from h es) s).0)
        × ((serve_all es s).1 ≡ (serve_all (from h es) s).1)
  unfolding serve_all
  serve_all-Undisturbed [] t s e u = (refl, refl)
  serve_all-Undisturbed ((peer, now, bytes) ∷ es) t s e u = elim (Bool-cases (peer == h)) [
    | inl p ↦
        let (replies, last) =
          serve_all-Undisturbed es now (serve peer now bytes s).0
            (subst (λ q. (serve q now bytes s).0.holder ≡ some (h, now)) (sym ((==_iff peer h).0 p))
              (holder_served now t bytes s e))
            (simp p at u) in
        simp p (ap (λ rs. (serve peer now bytes s).1 ∷ rs) replies, last)
    | inr p ↦
        let (calm, soon, later) = along p u in
        simp p (
          subst
            (λ s'.
              (to_peer h (serve_all es s').0 ≡ to_peer h (serve_all (from h es) s).0)
              × ((serve_all es s').1 ≡ (serve_all (from h es) s).1))
            (sym (ap (λ r. r.0) (other_refused peer now t bytes s e p calm soon)))
            (serve_all-Undisturbed es t s e later))
  ]
    where
      along :
          (peer == h) ≡ false
          → Undisturbed h t ((peer, now, bytes) ∷ es)
          → (described_as_reset bytes ≡ false) × (ltb (now - t) 1000 ≡ true) × Undisturbed h t es
      along p u = simp p at u
