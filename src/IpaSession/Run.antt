-- ===== src/IpaSession/Run.antt =====
-- What can happen to a session, one handler after another, as its executor runs them.
use gsup_map_proxy.Base.{
  ◌≡◌, sym, subst, true, List, [], ◌∷◌, ◌++◌, ok, append_assoc, append-nil, ◌⊎◌,
}
use gsup_map_proxy.Buffer.{Bytes}
use gsup_map_proxy.IpaSession.{
  IpaSession, Output, new_session, start, enqueue, write_done, write_failed, read_done, read_failed,
  stop, ready, stopped, write_started, completed, broken, pop_front, is_ready, on_ready, on_gsup,
  on_disconnect, socket_closed, read_started,
}

-- The writes that were started and whose handlers have not run, the oldest first.
unfoldable pub unfinished : List Bytes → List Output → List Bytes
unfinished fs [] = fs
unfinished fs (write_started f ∷ out) = unfinished (fs ++ f ∷ []) out
unfinished fs (completed f ∷ out) = unfinished (pop_front fs) out
unfinished fs (broken f ∷ out) = unfinished (pop_front fs) out
unfinished fs (_ ∷ out) = unfinished fs out

abbrev pub in_flight : List Output → List Bytes
in_flight out = unfinished [] out

-- The session `s` after a history of handlers with the outputs `out`, the oldest first. The
-- handler of a write runs once for each write that was started, whatever the session believes; the
-- history notes it with the frame written. `enqueue` runs when a task comes that `sendGsup` posted.
pub data History : IpaSession → List Output → Type 0 where
  started : {s : IpaSession} {out : List Output} → start new_session ≡ ok (out, s) → History s out
  posted :
      {s : IpaSession} {out : List Output} (f : Bytes)
      → History s out
      → History (enqueue f s).1 (out ++ (enqueue f s).0)
  wrote :
      {s : IpaSession} {out : List Output} {f : Bytes} {fs : List Bytes}
      → History s out
      → in_flight out ≡ f ∷ fs
      → History (write_done s).1 (out ++ completed f ∷ (write_done s).0)
  write_broke :
      {s : IpaSession} {out : List Output} {f : Bytes} {fs : List Bytes}
      → History s out
      → in_flight out ≡ f ∷ fs
      → History (write_failed s).1 (out ++ broken f ∷ (write_failed s).0)
  received :
      {s : IpaSession} {out : List Output} (bytes : Bytes)
      → History s out
      → History (read_done bytes s).session (out ++ (read_done bytes s).outputs)
  read_broke :
      {s : IpaSession} {out : List Output}
      → History s out
      → History (read_failed s).1 (out ++ (read_failed s).0)
  closed :
      {s : IpaSession} {out : List Output} → History s out → History (stop s).1 (out ++ (stop s).0)

-- A relation between a state and the outputs so far that a handler keeps.
abbrev pub Keeps {ℓ} :
    (P : IpaSession → List Output → Type ℓ) (s : IpaSession) (out : List Output) (s' : IpaSession)
    → Type ℓ
Keeps P s out s' = (before : List Output) → P s before → P s' (before ++ out)

module _ {ℓ} (P : IpaSession → List Output → Type ℓ) where
  pub Keeps-both :
      {s s' s'' : IpaSession} {a b : List Output}
      → Keeps P s a s'
      → Keeps P s' b s''
      → Keeps P s (a ++ b) s''
  Keeps-both {s'' = s''} {a} {b} ka kb before h =
      subst (P s'') (append_assoc before a b) (kb (before ++ a) (ka before h))

  pub Keeps-none :
      {s s' : IpaSession} → ((before : List Output) → P s before → P s' before) → Keeps P s [] s'
  Keeps-none {s' = s'} k before h = subst (P s') (sym (append-nil before)) (k before h)

-- The outputs of the handlers that stop a session.
abbrev pub IsStop : Output → Type 0
IsStop o = (o ≡ on_disconnect) ⊎ (o ≡ socket_closed)

-- What holds after every history: it holds of a new session, and the parts that the handlers are
-- made of keep it.
pub record IsInvariant {ℓ} (P : IpaSession → List Output → Type ℓ) : Type ℓ where
  pub at_first : P new_session []
  pub enqueues : (f : Bytes) (s : IpaSession) → Keeps P s (enqueue f s).0 (enqueue f s).1
  pub writes :
      (s : IpaSession) (out : List Output) (f : Bytes) (fs : List Bytes)
      → in_flight out ≡ f ∷ fs
      → P s out
      → P (write_done s).1 (out ++ completed f ∷ (write_done s).0)
  pub breaks :
      (s : IpaSession) (out : List Output) (f : Bytes) (fs : List Bytes)
      → in_flight out ≡ f ∷ fs
      → P s out
      → P s (out ++ broken f ∷ [])
  pub stops :
      (s : IpaSession) (o : Output) → IsStop o → Keeps P s (o ∷ []) (record s { state = stopped })
  pub decodes :
      (s : IpaSession) (d : Bytes) (out : List Output) → P s out → P (record s { decoder = d }) out
  pub readies : (s : IpaSession) → Keeps P s (on_ready ∷ []) (record s { state = ready })
  pub delivers :
      (s : IpaSession) (payload : Bytes) → is_ready s ≡ true → Keeps P s (on_gsup payload ∷ []) s
  pub reads : (s : IpaSession) → Keeps P s (read_started ∷ []) s
