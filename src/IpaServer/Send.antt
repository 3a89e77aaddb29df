-- ===== src/IpaServer/Send.antt =====
-- Which sessions a GSUP message goes to.
use gsup_map_proxy.Base.{
  ℕ, ◌+◌, ◌/◌, ◌^◌, ◌≤◌, ◌≡◌, refl, ap, Bool, false, ◌&&◌, ◌||◌, List, [], ◌∷◌, Option, none, some,
  ◌==◌, nat_eq, ok, map_ok, length, arith, le→ltb_false, Bool-cases, Option-cases, inl, inr, ==_iff,
}
use gsup_map_proxy.Buffer.{Bytes, uint8, uint16}
use gsup_map_proxy.Assoc.{find, Distinct}
use gsup_map_proxy.Ipa.{encode, stream_gsup}
use gsup_map_proxy.IpaSession.{send_gsup}
use gsup_map_proxy.IpaServer.{
  IpaServer, Output, to_proxy, posted, points_to_ready, broadcast, send_to, send,
}
use gsup_map_proxy.IpaServer.Invariant.{History, History-IsValid}

-- Whether a frame was posted to the object `k`.
unfoldable pub posts_to : ℕ → List Output → Bool
posts_to k [] = false
posts_to k (posted p f ∷ out) = (p == k) || posts_to k out
posts_to k (to_proxy payload id ∷ out) = posts_to k out

abbrev pub leads_to_ready : IpaServer → Option ℕ → Bool
leads_to_ready s none = false
leads_to_ready s (some p) = points_to_ready s p

-- Whether the client `k` has a session that is active and ready.
abbrev pub is_reachable : IpaServer → ℕ → Bool
is_reachable s k = leads_to_ready s (find k s.sessions)

abbrev AreOwn : List (ℕ × ℕ) → Type 0
AreOwn table = (k p : ℕ) → find k table ≡ some p → p ≡ k

tail-AreOwn :
    (id p : ℕ) (table : List (ℕ × ℕ))
    → Distinct ((id, p) ∷ table)
    → AreOwn ((id, p) ∷ table)
    → AreOwn table
unfolding find
tail-AreOwn id p table d own k q e = own k q (ground (arith, d.0, e, ==_iff id k))

head-AreOwn : (id p : ℕ) (table : List (ℕ × ℕ)) → AreOwn ((id, p) ∷ table) → p ≡ id
unfolding find
head-AreOwn id p table own = own id p (ground (arith, ==_iff id id))

-- The outputs of a broadcast to a part of the table.
abbrev Broadcast : Bytes → IpaServer → ℕ → List (ℕ × ℕ) → Type 0
Broadcast payload s k table =
    (out : List Output) × (broadcast payload s table ≡ ok out)
    × (posts_to k out ≡ leads_to_ready s (find k table))

broadcast_lem :
    (payload frame : Bytes) (s : IpaServer) (k : ℕ) (table : List (ℕ × ℕ))
    → send_gsup payload ≡ ok frame
    → Distinct table
    → AreOwn table
    → Broadcast payload s k table
unfolding broadcast posts_to find
broadcast_lem payload frame s k [] sent d own = ([], refl, refl)
broadcast_lem payload frame s k ((id, p) ∷ table) sent d own =
    let rest = broadcast_lem payload frame s k table sent d.1 (tail-AreOwn id p table d own) in
    let same = head-AreOwn id p table own in
    elim (Bool-cases (points_to_ready s p)) [
      | inl goes ↦ (
        posted p frame ∷ rest.0,
        rw goes (rw sent (rw (rest.1) refl)),
        ground (arith, rest.2, same, goes, ==_iff id k, d.0),
      )
      | inr stays ↦
          (rest.0, rw stays (rest.1), ground (arith, rest.2, same, stays, ==_iff id k, d.0))
    ]

send_gsup-ok :
    (payload : Bytes) → length payload ≤ 0xffff → (frame : Bytes) × (send_gsup payload ≡ ok frame)
unfolding send_gsup encode
send_gsup-ok payload h =
    let n = uint16 (length payload + 1) in
    (
      uint8 (n / 2 ^ 8) ∷ uint8 n ∷ stream_gsup ∷ payload,
      rw (le→ltb_false 0xffff (length payload) h) refl,
    )

send_to_lem :
    (payload frame : Bytes) (s : IpaServer) (client k : ℕ)
    → send_gsup payload ≡ ok frame
    → AreOwn s.sessions
    → map_ok (posts_to k) (send_to payload s (find client s.sessions))
      ≡ ok ((client == k) && is_reachable s k)
unfolding send_to posts_to
send_to_lem payload frame s client k sent own = elim (Option-cases (find client s.sessions)) [
  | inl unknown ↦ rw unknown (ground (arith, ==_iff client k, unknown))
  | inr (p, known) ↦
      let same = own client p known in
      elim (Bool-cases (points_to_ready s p)) [
        | inl ready ↦
            rw (known, send_to)
              (rw ready (rw sent (ground (arith, ==_iff client k, known, same, ready))))
        | inr waiting ↦
            rw (known, send_to) (rw waiting (ground (arith, ==_iff client k, known, same, waiting)))
      ]
]

-- After every history of fewer than 2^64 - 1 connections, sending a payload of at most 65535 bytes
-- throws nothing, and for every client it posts a frame to that client's session exactly if the
-- session is active and ready and the payload is for that client or, with the client ID 0, for all.
pub send-posts_to :
    {s : IpaServer}
    → History s
    → (payload : Bytes) (client k : ℕ) → length payload ≤ 0xffff
    → map_ok (posts_to k) (send payload client s)
      ≡ ok (((client == 0) || (client == k)) && is_reachable s k)
unfolding send
send-posts_to {s} h payload client k small =
    let v = History-IsValid h in
    let (frame, sent) = send_gsup-ok payload small in
    let own : AreOwn s.sessions = λ j p e. v.own_id j p (v.active_known j p e) in
    elim (Bool-cases (client == 0)) [
      | inl all ↦
          let (out, done, posts) = broadcast_lem payload frame s k s.sessions sent v.distinct own in
          rw all (rw done (ap ok posts))
      | inr one ↦ rw one (send_to_lem payload frame s client k sent own)
    ]
