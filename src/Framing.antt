-- ===== src/Framing.antt =====
-- What the decoders of ipa/IpaCodec.cpp and transport/M3uaCodec.cpp share: a buffer that a TCP
-- connection's bytes are fed to, and the read loop `while (auto f = decoder_.next())` over it.
pub mod Laws
pub mod Delivery
use gsup_map_proxy.Base.{ℕ, zero, suc, List, [], ◌∷◌, ◌++◌, length, Error, Result, ok, err, stuck}
use gsup_map_proxy.Buffer.{Bytes}

-- What a call of `next` comes to: `std::nullopt`, a frame, or an exception.
pub data Next {ℓ} (F : Type ℓ) : Type ℓ where
  need_more : Next F
  frame : F → Next F
  thrown : Error → Next F

-- What the read loop comes to: the frames, whether an exception ended it, and the buffer. `stuck`
-- means that the fuel ran out.
pub record Drained {ℓ} (F : Type ℓ) : Type ℓ where
  pub frames : List F
  pub raised : Result (Unit {0})
  pub left : Bytes

abbrev pub cons_frame {ℓ} : {F : Type ℓ} → F → Drained F → Drained F
cons_frame f d = record d { frames = f ∷ d.frames }

abbrev pub append_frames {ℓ} : {F : Type ℓ} → List F → Drained F → Drained F
append_frames fs d = record d { frames = fs ++ d.frames }

-- An exception ends the reading.
abbrev pub continue_with {ℓ} : {F : Type ℓ} → (Bytes → Drained F) → Drained F → Drained F
continue_with more d = elim (d.raised) [
  | ok done ↦ append_frames d.frames (more d.left)
  | err e ↦ d
  | stuck ↦ d
]

module _ {ℓ} {F : Type ℓ} (next : Bytes → Next F × Bytes) where
  unfoldable pub drain : ℕ → Bytes → Drained F
  drain zero buf = record { frames = []; raised = stuck; left = buf }
  drain (suc fuel) buf = elim ((next buf).0) [
    | need_more ↦ record { frames = []; raised = ok tt; left = (next buf).1 }
    | frame f ↦ cons_frame f (drain fuel (next buf).1)
    | thrown e ↦ record { frames = []; raised = err e; left = (next buf).1 }
  ]

  -- Each frame takes a byte at least, so this fuel is enough.
  unfoldable pub drain_all : Bytes → Drained F
  drain_all buf = drain (suc (length buf)) buf

  -- A connection's reads: each piece that comes is fed to the buffer, and the read loop runs.
  unfoldable pub deliver : Bytes → List Bytes → Drained F
  deliver buf [] = record { frames = []; raised = ok tt; left = buf }
  deliver buf (piece ∷ pieces) =
      continue_with (λ left. deliver left pieces) (drain_all (buf ++ piece))
