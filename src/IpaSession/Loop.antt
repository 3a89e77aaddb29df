-- ===== src/IpaSession/Loop.antt =====
-- An invariant of the parts of a session's handlers holds after every history.
use gsup_map_proxy.Base.{
  ℕ, zero, suc, refl, subst, append_assoc, ◌&&◌, List, [], ◌∷◌, ◌++◌, ◌==◌, if◌then◌else◌, Result,
  ok, arith, Bool-cases, Result-cases, inl, inr, length, Ensures, Ensures-if, Ensures-map,
  Ensures-ok, Ensures-of_ne_stuck, holds,
}
use gsup_map_proxy.Buffer.{Bytes}
use gsup_map_proxy.Ipa.{
  IpaFrame, encode, next, feed, stream_ccm, stream_gsup, ccm_id_resp, ccm_ping, ccm_pong,
  ccm_id_ack, ccm_id_req,
}
use gsup_map_proxy.Ipa.Stream.{encode-ne-stuck}
use gsup_map_proxy.Framing.Laws.{Next-cases}
use gsup_map_proxy.IpaSession.{
  IpaSession, Output, on_disconnect, socket_closed, broken, is_ready, is_stopped, enqueue,
  write_failed, send_ccm, send_ccm_id_get, send_ccm_id_ack, send_ccm_pong, handle_ccm,
  process_frame, process_frames, read_on, read_done, read_failed, new_session, start, stop, Handled,
  Step, become_ready, begin_reading, stopped,
}
use gsup_map_proxy.IpaSession.Run.{
  History, started, posted, wrote, write_broke, received, read_broke, closed, Keeps, Keeps-both,
  Keeps-none, IsInvariant, IsStop,
}

module _ {ℓ} {P : IpaSession → List Output → Type ℓ} (inv : IsInvariant P) where
  -- The handler keeps `P`, or throws.
  abbrev StepKeeps : IpaSession → Result Step → Type ℓ
  StepKeeps s r = Ensures (λ step. Keeps P s step.0 step.1) r

  nothing : (s : IpaSession) → StepKeeps s (ok ([], s))
  nothing s = holds (Keeps-none P (λ before h. h))

  send_ccm-Keeps : (payload : Bytes) (s : IpaSession) → StepKeeps s (send_ccm payload s)
  unfolding send_ccm
  send_ccm-Keeps payload s =
      Ensures-map (λ f. enqueue f s)
        (Ensures-of_ne_stuck (encode stream_ccm payload) (encode-ne-stuck stream_ccm payload))
        (λ f h. inv.enqueues f s)

  handle_ccm-Keeps : (payload : Bytes) (s : IpaSession) → StepKeeps s (handle_ccm payload s)
  unfolding handle_ccm send_ccm_id_ack send_ccm_pong
  handle_ccm-Keeps [] s = nothing s
  handle_ccm-Keeps (b ∷ payload) s =
      Ensures-if (b == ccm_id_resp)
        (λ h.
          Ensures-map become_ready (send_ccm-Keeps (ccm_id_ack ∷ []) s)
            (λ step k. Keeps-both P k (inv.readies step.1)))
        (λ h. Ensures-if (b == ccm_ping) (λ h. send_ccm-Keeps (ccm_pong ∷ []) s) (λ h. nothing s))

  process_frame-Keeps : (f : IpaFrame) (s : IpaSession) → StepKeeps s (process_frame f s)
  unfolding process_frame
  process_frame-Keeps f s =
      Ensures-if (f.stream_id == stream_ccm) (λ h. handle_ccm-Keeps f.payload s)
        (λ h.
          Ensures-if ((f.stream_id == stream_gsup) && is_ready s)
            (λ h. holds (inv.delivers s f.payload (ground arith))) (λ h. nothing s))

  decoded : (s : IpaSession) (d : Bytes) → Keeps P s [] (record s { decoder = d })
  decoded s d = Keeps-none P (inv.decodes s d)

  process_frames-Keeps :
      (fuel : ℕ) (s : IpaSession)
      → Keeps P s (process_frames fuel s).outputs (process_frames fuel s).session
  unfolding process_frames
  process_frames-Keeps zero s = Keeps-none P (λ before h. h)
  process_frames-Keeps (suc fuel) s = elim (Next-cases (next s.decoder)) [
    | inl e ↦ rw (e, process_frames) (decoded s (next s.decoder).1)
    | inr (inl (f, e)) ↦
        let rest = record s { decoder = (next s.decoder).1 } in
        rw (e, process_frames)
          (elim (Result-cases (process_frame f rest)) [
            | inl ((out, s'), done) ↦ rw done (
                Keeps-both P (decoded s (next s.decoder).1) (
                  Keeps-both P (Ensures-ok (process_frame-Keeps f rest) done)
                    (process_frames-Keeps fuel s')))
            | inr (inl (x, failed)) ↦ rw failed (decoded s (next s.decoder).1)
            | inr (inr failed) ↦ rw failed (decoded s (next s.decoder).1)
          ])
    | inr (inr (x, e)) ↦ rw (e, process_frames) (decoded s (next s.decoder).1)
  ]

  read_on-Keeps :
      (s : IpaSession) (h : Handled)
      → Keeps P s h.outputs h.session
      → Keeps P s (read_on h).outputs (read_on h).session
  read_on-Keeps s h k = elim (Result-cases h.raised) [
    | inl (done, e) ↦ rw e (elim (Bool-cases (is_stopped h.session)) [
      | inl stops ↦ rw stops k
      | inr goes ↦ rw goes (Keeps-both P k (inv.reads h.session))
    ])
    | inr (inl (x, e)) ↦ rw e k
    | inr (inr e) ↦ rw e k
  ]

  read_done-Keeps :
      (bytes : Bytes) (s : IpaSession)
      → Keeps P s (read_done bytes s).outputs (read_done bytes s).session
  unfolding read_done
  read_done-Keeps bytes s =
      let fed = record s { decoder = feed s.decoder bytes } in
      read_on-Keeps s (process_frames (suc (length fed.decoder)) fed)
        (Keeps-both P (decoded s fed.decoder) (process_frames-Keeps (suc (length fed.decoder)) fed))

  unless_stopped-Keeps :
      (s : IpaSession) (o : Output)
      → IsStop o
      → let step : Step =
          if is_stopped s then ([], s) else (o ∷ [], record s { state = stopped }) in
        Keeps P s step.0 step.1
  unless_stopped-Keeps s o h = elim (Bool-cases (is_stopped s)) [
    | inl done ↦ rw done (Keeps-none P (λ before p. p))
    | inr going ↦ rw going (inv.stops s o h)
  ]

  start-Keeps : (s : IpaSession) → StepKeeps s (start s)
  unfolding start send_ccm_id_get
  start-Keeps s =
      Ensures-map begin_reading (send_ccm-Keeps (ccm_id_req ∷ 0x01 ∷ 0x07 ∷ []) s)
        (λ step k. Keeps-both P k (inv.reads step.1))

  pub History-invariant : {s : IpaSession} {out : List Output} → History s out → P s out
  unfolding write_failed read_failed stop
  History-invariant (started e) = Ensures-ok (start-Keeps new_session) e [] inv.at_first
  History-invariant (posted {s} {out} f h) = inv.enqueues f s out (History-invariant h)
  History-invariant (wrote {s} {out} {f} {fs} h flies) =
      inv.writes s out f fs flies (History-invariant h)
  History-invariant (write_broke {s} {out} {f} {fs} h flies) =
      subst (P (write_failed s).1) (append_assoc out (broken f ∷ []) (write_failed s).0) (
        unless_stopped-Keeps s on_disconnect (inl refl) (out ++ broken f ∷ [])
          (inv.breaks s out f fs flies (History-invariant h)))
  History-invariant (received {s} {out} bytes h) = read_done-Keeps bytes s out (History-invariant h)
  History-invariant (read_broke {s} {out} h) =
      unless_stopped-Keeps s on_disconnect (inl refl) out (History-invariant h)
  History-invariant (closed {s} {out} h) =
      unless_stopped-Keeps s socket_closed (inr refl) out (History-invariant h)
