-- ===== src/IpaSession/Readiness.antt =====
-- GSUP messages of an SGSN reach the proxy only after the CCM handshake.
use gsup_map_proxy.Base.{
  ◌≡◌, refl, sym, ◌∙◌, Bool, true, false, ◌&&◌, ◌||◌, List, [], ◌∷◌, ◌++◌, inl, inr, ◌⊎◌,
  Bool-cases, arith,
}
use gsup_map_proxy.Buffer.{Bytes}
use gsup_map_proxy.IpaSession.{
  IpaSession, Output, State, ready, stopped, queued, write_started, read_started, socket_closed,
  on_ready, on_disconnect, on_gsup, is_ready, do_write, enqueue, write_done, new_session, pop_front,
  completed, broken,
}
use gsup_map_proxy.IpaSession.Run.{Keeps, History, IsInvariant, IsStop}
use gsup_map_proxy.IpaSession.Loop.{History-invariant}

-- Whether the handshake's end was reported.
unfoldable pub reported : List Output → Bool
reported [] = false
reported (on_ready ∷ out) = true
reported (_ ∷ out) = reported out

-- Whether each delivered message comes after a report, or after one that came before.
unfoldable pub after_report : Bool → List Output → Bool
after_report seen [] = true
after_report seen (on_ready ∷ out) = after_report true out
after_report seen (on_gsup payload ∷ out) = seen && after_report seen out
after_report seen (_ ∷ out) = after_report seen out

abbrev IsAnnounced : IpaSession → List Output → Type 0
IsAnnounced s out = (after_report false out ≡ true) × (is_ready s ≡ true → reported out ≡ true)

reported-append : (a b : List Output) → reported (a ++ b) ≡ (reported a || reported b)
unfolding reported
reported-append [] b = refl
reported-append (on_ready ∷ a) b = refl
reported-append (queued f ∷ a) b = reported-append a b
reported-append (write_started f ∷ a) b = reported-append a b
reported-append (read_started ∷ a) b = reported-append a b
reported-append (socket_closed ∷ a) b = reported-append a b
reported-append (on_disconnect ∷ a) b = reported-append a b
reported-append (on_gsup p ∷ a) b = reported-append a b
reported-append (completed f ∷ a) b = reported-append a b
reported-append (broken f ∷ a) b = reported-append a b

after_report-append :
    (seen : Bool) (a b : List Output)
    → after_report seen (a ++ b) ≡ (after_report seen a && after_report (seen || reported a) b)
unfolding after_report reported
after_report-append seen [] b = ground arith
after_report-append seen (on_ready ∷ a) b = ground (arith, after_report-append true a b)
after_report-append seen (queued f ∷ a) b = after_report-append seen a b
after_report-append seen (write_started f ∷ a) b = after_report-append seen a b
after_report-append seen (read_started ∷ a) b = after_report-append seen a b
after_report-append seen (socket_closed ∷ a) b = after_report-append seen a b
after_report-append seen (on_disconnect ∷ a) b = after_report-append seen a b
after_report-append seen (completed f ∷ a) b = after_report-append seen a b
after_report-append seen (broken f ∷ a) b = after_report-append seen a b
after_report-append seen (on_gsup p ∷ a) b = ground (arith, after_report-append seen a b)

Keeps-IsAnnounced :
    (s s' : IpaSession) (out : List Output)
    → ((seen : Bool) → (is_ready s ≡ true → seen ≡ true) → after_report seen out ≡ true)
    → (is_ready s' ≡ true → (reported out ≡ true) ⊎ (is_ready s ≡ true))
    → Keeps IsAnnounced s out s'
Keeps-IsAnnounced s s' out keeps stays before h = (
  rw (after_report-append false before out) (rw h.0 (keeps (reported before) h.1)),
  λ is.
      rw (reported-append before out)
        (elim (stays is) [ inl now ↦ ground (arith, now) | inr was ↦ ground (arith, h.1 was) ]),
)

-- A handler that neither ends the handshake nor delivers a message.
quiet : List Output → Bool
quiet [] = true
quiet (on_ready ∷ out) = false
quiet (on_gsup payload ∷ out) = false
quiet (_ ∷ out) = quiet out

after_report-quiet :
    (seen : Bool) (out : List Output) → quiet out ≡ true → after_report seen out ≡ true
unfolding after_report quiet
after_report-quiet seen [] q = refl
after_report-quiet seen (on_ready ∷ out) q = cc
after_report-quiet seen (on_gsup payload ∷ out) q = cc
after_report-quiet seen (queued f ∷ out) q = after_report-quiet seen out q
after_report-quiet seen (write_started f ∷ out) q = after_report-quiet seen out q
after_report-quiet seen (read_started ∷ out) q = after_report-quiet seen out q
after_report-quiet seen (socket_closed ∷ out) q = after_report-quiet seen out q
after_report-quiet seen (on_disconnect ∷ out) q = after_report-quiet seen out q
after_report-quiet seen (completed f ∷ out) q = after_report-quiet seen out q
after_report-quiet seen (broken f ∷ out) q = after_report-quiet seen out q

Keeps-quiet :
    (s s' : IpaSession) (out : List Output)
    → quiet out ≡ true
    → (is_ready s' ≡ true → is_ready s ≡ true)
    → Keeps IsAnnounced s out s'
Keeps-quiet s s' out q stays =
    Keeps-IsAnnounced s s' out (λ seen h. after_report-quiet seen out q) (λ is. inr (stays is))

do_write_fields :
    (d : Bytes) (st : State) (q : List Bytes) (w : Bool)
    → let s : IpaSession = record { decoder = d; state = st; write_queue = q; writing = w } in
      (quiet (do_write s).0 ≡ true) × (is_ready (do_write s).1 ≡ is_ready s)
unfolding do_write quiet is_ready
do_write_fields d st [] w = (refl, refl)
do_write_fields d st (f ∷ q) w = (refl, refl)

do_write-quiet :
    (s : IpaSession) → (quiet (do_write s).0 ≡ true) × (is_ready (do_write s).1 ≡ is_ready s)
do_write-quiet s = do_write_fields s.decoder s.state s.write_queue s.writing

enqueue-Keeps : (f : Bytes) (s : IpaSession) → Keeps IsAnnounced s (enqueue f s).0 (enqueue f s).1
unfolding enqueue quiet is_ready do_write
enqueue-Keeps f s =
    let pushed = record s { write_queue = s.write_queue ++ f ∷ [] } in
    let begun = do_write-quiet pushed in
    elim (Bool-cases s.writing) [
      | inl busy ↦ rw busy (Keeps-quiet s pushed (queued f ∷ []) refl (λ is. is))
      | inr idle ↦ rw idle (
          Keeps-quiet s (do_write pushed).1 (queued f ∷ (do_write pushed).0) (begun.0)
            (λ is. sym (begun.1) ∙ is))
    ]

write_done-Keeps :
    (s : IpaSession) (f : Bytes)
    → Keeps IsAnnounced s (completed f ∷ (write_done s).0) (write_done s).1
unfolding write_done is_ready quiet
write_done-Keeps s f =
    let popped = record s { write_queue = pop_front s.write_queue } in
    let begun = do_write-quiet popped in
    Keeps-quiet s (do_write popped).1 (completed f ∷ (do_write popped).0) (begun.0)
      (λ is. sym (begun.1) ∙ is)

stops-Keeps :
    (s : IpaSession) (o : Output)
    → IsStop o
    → Keeps IsAnnounced s (o ∷ []) (record s { state = stopped })
unfolding quiet is_ready
stops-Keeps s o (inl e) =
    Keeps-quiet s (record s { state = stopped }) (o ∷ []) (rw e refl) (λ is. cc is)
stops-Keeps s o (inr e) =
    Keeps-quiet s (record s { state = stopped }) (o ∷ []) (rw e refl) (λ is. cc is)

announced : IsInvariant IsAnnounced
unfolding new_session after_report reported quiet is_ready
announced = record {
  at_first = (refl, λ is. cc is);
  enqueues = enqueue-Keeps;
  writes = λ s out f fs flies h. write_done-Keeps s f out h;
  breaks = λ s out f fs flies h. Keeps-quiet s s (broken f ∷ []) refl (λ is. is) out h;
  stops = stops-Keeps;
  decodes = λ s d out h. h;
  readies = λ s.
      Keeps-IsAnnounced s (record s { state = ready }) (on_ready ∷ []) (λ seen h. refl)
        (λ is. inl refl);
  delivers = λ s payload is.
      Keeps-IsAnnounced s s (on_gsup payload ∷ []) (λ seen h. rw (h is) refl) (λ is. inr is);
  reads = λ s. Keeps-quiet s s (read_started ∷ []) refl (λ is. is);
}

-- In every history of a session, each GSUP message that is delivered comes after a report that the
-- CCM handshake is over; whatever the peer sends before that does not reach the proxy.
pub History-after_report :
    {s : IpaSession} {out : List Output} → History s out → after_report false out ≡ true
History-after_report h = (History-invariant announced h).0
