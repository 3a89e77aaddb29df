-- ===== src/IpaSession/Queue.antt =====
-- The write queue: frames go to the socket in the order in which they were queued, one at a time.
use gsup_map_proxy.Base.{
  ℕ, zero, suc, ◌≡◌, refl, sym, ap, ◌∙◌, Bool, true, false, List, [], ◌∷◌, ◌++◌, length, take, drop,
  append_assoc, append-nil, inl, inr,
}
use gsup_map_proxy.Buffer.{Bytes}
use gsup_map_proxy.IpaSession.{
  IpaSession, State, Output, queued, write_started, read_started, socket_closed, on_ready,
  on_disconnect, on_gsup, do_write, enqueue, write_done, stopped, new_session, Step, completed,
  broken, pop_front,
}
use gsup_map_proxy.IpaSession.Run.{unfinished, in_flight, Keeps, History, IsInvariant, IsStop}
use gsup_map_proxy.IpaSession.Loop.{History-invariant}

-- The frames that entered the queue, and those whose write was started.
unfoldable pub queued_of : List Output → List Bytes
queued_of [] = []
queued_of (queued f ∷ out) = f ∷ queued_of out
queued_of (_ ∷ out) = queued_of out

unfoldable pub started_of : List Output → List Bytes
started_of [] = []
started_of (write_started f ∷ out) = f ∷ started_of out
started_of (_ ∷ out) = started_of out

-- The frames whose writes have completed, and those whose writes have failed.
unfoldable pub completed_of : List Output → List Bytes
completed_of [] = []
completed_of (completed f ∷ out) = f ∷ completed_of out
completed_of (_ ∷ out) = completed_of out

unfoldable pub broken_of : List Output → List Bytes
broken_of [] = []
broken_of (broken f ∷ out) = f ∷ broken_of out
broken_of (_ ∷ out) = broken_of out

queued_of-append : (a b : List Output) → queued_of (a ++ b) ≡ queued_of a ++ queued_of b
unfolding queued_of
queued_of-append [] b = refl
queued_of-append (queued f ∷ a) b = ap (λ l. f ∷ l) (queued_of-append a b)
queued_of-append (write_started f ∷ a) b = queued_of-append a b
queued_of-append (read_started ∷ a) b = queued_of-append a b
queued_of-append (socket_closed ∷ a) b = queued_of-append a b
queued_of-append (on_ready ∷ a) b = queued_of-append a b
queued_of-append (on_disconnect ∷ a) b = queued_of-append a b
queued_of-append (on_gsup p ∷ a) b = queued_of-append a b
queued_of-append (completed f ∷ a) b = queued_of-append a b
queued_of-append (broken f ∷ a) b = queued_of-append a b

started_of-append : (a b : List Output) → started_of (a ++ b) ≡ started_of a ++ started_of b
unfolding started_of
started_of-append [] b = refl
started_of-append (write_started f ∷ a) b = ap (λ l. f ∷ l) (started_of-append a b)
started_of-append (queued f ∷ a) b = started_of-append a b
started_of-append (read_started ∷ a) b = started_of-append a b
started_of-append (socket_closed ∷ a) b = started_of-append a b
started_of-append (on_ready ∷ a) b = started_of-append a b
started_of-append (on_disconnect ∷ a) b = started_of-append a b
started_of-append (on_gsup p ∷ a) b = started_of-append a b
started_of-append (completed f ∷ a) b = started_of-append a b
started_of-append (broken f ∷ a) b = started_of-append a b

completed_of-append : (a b : List Output) → completed_of (a ++ b) ≡ completed_of a ++ completed_of b
unfolding completed_of
completed_of-append [] b = refl
completed_of-append (queued f ∷ a) b = completed_of-append a b
completed_of-append (write_started f ∷ a) b = completed_of-append a b
completed_of-append (read_started ∷ a) b = completed_of-append a b
completed_of-append (socket_closed ∷ a) b = completed_of-append a b
completed_of-append (on_ready ∷ a) b = completed_of-append a b
completed_of-append (on_disconnect ∷ a) b = completed_of-append a b
completed_of-append (on_gsup p ∷ a) b = completed_of-append a b
completed_of-append (completed f ∷ a) b = ap (λ l. f ∷ l) (completed_of-append a b)
completed_of-append (broken f ∷ a) b = completed_of-append a b

broken_of-append : (a b : List Output) → broken_of (a ++ b) ≡ broken_of a ++ broken_of b
unfolding broken_of
broken_of-append [] b = refl
broken_of-append (queued f ∷ a) b = broken_of-append a b
broken_of-append (write_started f ∷ a) b = broken_of-append a b
broken_of-append (read_started ∷ a) b = broken_of-append a b
broken_of-append (socket_closed ∷ a) b = broken_of-append a b
broken_of-append (on_ready ∷ a) b = broken_of-append a b
broken_of-append (on_disconnect ∷ a) b = broken_of-append a b
broken_of-append (on_gsup p ∷ a) b = broken_of-append a b
broken_of-append (completed f ∷ a) b = broken_of-append a b
broken_of-append (broken f ∷ a) b = ap (λ l. f ∷ l) (broken_of-append a b)

unfinished-append :
    (fs : List Bytes) (a b : List Output) → unfinished fs (a ++ b) ≡ unfinished (unfinished fs a) b
unfolding unfinished
unfinished-append fs [] b = refl
unfinished-append fs (write_started f ∷ a) b = unfinished-append (fs ++ f ∷ []) a b
unfinished-append fs (completed f ∷ a) b = unfinished-append (pop_front fs) a b
unfinished-append fs (broken f ∷ a) b = unfinished-append (pop_front fs) a b
unfinished-append fs (queued f ∷ a) b = unfinished-append fs a b
unfinished-append fs (read_started ∷ a) b = unfinished-append fs a b
unfinished-append fs (socket_closed ∷ a) b = unfinished-append fs a b
unfinished-append fs (on_ready ∷ a) b = unfinished-append fs a b
unfinished-append fs (on_disconnect ∷ a) b = unfinished-append fs a b
unfinished-append fs (on_gsup p ∷ a) b = unfinished-append fs a b

abbrev pub nonempty : List Bytes → Bool
nonempty [] = false
nonempty (f ∷ fs) = true

-- The queued frames are those whose writes have completed and the queue; the started writes are
-- those that have completed and that of the front; and the write of the front is under way or has
-- failed: no other is, and no other has.
pub record IsOrdered (s : IpaSession) (out : List Output) : Type 0 where
  pub busy : s.writing ≡ nonempty s.write_queue
  pub all_queued : queued_of out ≡ completed_of out ++ s.write_queue
  pub all_started : started_of out ≡ completed_of out ++ take 1 s.write_queue
  pub at_front : broken_of out ++ in_flight out ≡ take 1 s.write_queue

-- The parts of `IsOrdered` after more outputs, from what these add.
append-IsOrdered :
    {s s' : IpaSession} {before : List Output} (out : List Output)
    → IsOrdered s before
    → s'.writing ≡ nonempty s'.write_queue
    → (completed_of before ++ s.write_queue) ++ queued_of out
      ≡ (completed_of before ++ completed_of out) ++ s'.write_queue
    → (completed_of before ++ take 1 s.write_queue) ++ started_of out
      ≡ (completed_of before ++ completed_of out) ++ take 1 s'.write_queue
    → (broken_of before ++ broken_of out) ++ unfinished (in_flight before) out
      ≡ take 1 s'.write_queue
    → IsOrdered s' (before ++ out)
append-IsOrdered {before} out h b q t f = record {
  busy = b;
  all_queued =
      queued_of-append before out ∙ rw h.all_queued (rw (completed_of-append before out) q);
  all_started =
      started_of-append before out ∙ rw h.all_started (rw (completed_of-append before out) t);
  at_front = rw (broken_of-append before out) (rw (unfinished-append [] before out) f);
}

-- A handler that leaves the queue alone.
abbrev IsQuiet : List Output → Type 0
IsQuiet out =
    (queued_of out ≡ [])
    × (started_of out ≡ [])
    × (completed_of out ≡ [])
    × (broken_of out ≡ [])
    × ((fs : List Bytes) → unfinished fs out ≡ fs)

pub Keeps-quiet :
    (s s' : IpaSession) (out : List Output)
    → s'.write_queue ≡ s.write_queue
    → s'.writing ≡ s.writing
    → IsQuiet out
    → Keeps IsOrdered s out s'
Keeps-quiet s s' out eq ew (nq, ns, nc, nb, nu) before h =
    append-IsOrdered out h (ew ∙ h.busy ∙ ap nonempty (sym eq)) (rw (nq, nc, eq) (simp append-nil))
      (rw (ns, nc, eq) (simp append-nil))
      (rw (nb, nu (in_flight before), eq)
        (ap (λ b. b ++ in_flight before) (append-nil (broken_of before)) ∙ h.at_front))

-- The only write under way is that of the front.
front_flies :
    (b : List Bytes) {f g : Bytes} {fs : List Bytes}
    → b ++ f ∷ fs ≡ g ∷ []
    → (b ≡ []) × (f ≡ g) × (fs ≡ [])
front_flies [] e = (refl, cc e, cc e)
front_flies (x ∷ []) e = absurd (cc e)
front_flies (x ∷ y ∷ b) e = absurd (cc e)

nothing_flies : (b : List Bytes) (f : Bytes) (fs : List Bytes) → b ++ f ∷ fs ≡ [] → ⊥
nothing_flies [] f fs e = cc e
nothing_flies (x ∷ b) f fs e = cc e

module _ (d : Bytes) (st : State) where
  session : List Bytes → Bool → IpaSession
  session q w = record { decoder = d; state = st; write_queue = q; writing = w }

  enqueue_fields :
      (f : Bytes) (q : List Bytes) (w : Bool)
      → Keeps IsOrdered (session q w) (enqueue f (session q w)).0 (enqueue f (session q w)).1
  unfolding enqueue do_write session queued_of started_of completed_of broken_of unfinished
  enqueue_fields f [] true before h = cc (h.busy)
  enqueue_fields f [] false before h =
      append-IsOrdered (queued f ∷ write_started f ∷ []) h refl (simp append-nil) (simp append-nil)
        (rw (append-nil (broken_of before)) (
          sym (append_assoc (broken_of before) (in_flight before) (f ∷ []))
          ∙ ap (λ l. l ++ f ∷ []) h.at_front))
  enqueue_fields f (g ∷ q) true before h =
      append-IsOrdered (queued f ∷ []) h refl (simp (append-nil, append_assoc)) (simp append-nil)
        (rw (append-nil (broken_of before)) h.at_front)
  enqueue_fields f (g ∷ q) false before h = cc (h.busy)

  write_done_fields :
      (q : List Bytes) (w : Bool) (before : List Output) (f : Bytes) (fs : List Bytes)
      → in_flight before ≡ f ∷ fs
      → IsOrdered (session q w) before
      → IsOrdered
          (write_done (session q w)).1
          (before ++ completed f ∷ (write_done (session q w)).0)
  unfolding write_done do_write session queued_of started_of completed_of broken_of unfinished
  write_done_fields [] w before f fs flies h =
      absurd (nothing_flies (broken_of before) f fs (rw flies at h.at_front))
  write_done_fields (g ∷ []) w before f fs flies h =
      let (b, same, last) = front_flies (broken_of before) (rw flies at h.at_front) in
      append-IsOrdered (completed f ∷ []) h refl (rw same (simp append-nil))
        (rw same (simp append-nil)) (rw (b, flies, last) refl)
  write_done_fields (g ∷ g' ∷ q) w before f fs flies h =
      let (b, same, last) = front_flies (broken_of before) (rw flies at h.at_front) in
      append-IsOrdered (completed f ∷ write_started g' ∷ []) h refl
        (rw same (simp (append-nil, append_assoc))) (rw same (simp (append-nil, append_assoc)))
        (rw (b, flies, last) refl)

pub enqueue-Keeps : (f : Bytes) (s : IpaSession) → Keeps IsOrdered s (enqueue f s).0 (enqueue f s).1
unfolding session
enqueue-Keeps f s = enqueue_fields s.decoder s.state f s.write_queue s.writing

pub write_done-Keeps :
    (s : IpaSession) (before : List Output) (f : Bytes) (fs : List Bytes)
    → in_flight before ≡ f ∷ fs
    → IsOrdered s before
    → IsOrdered (write_done s).1 (before ++ completed f ∷ (write_done s).0)
unfolding session
write_done-Keeps s = write_done_fields s.decoder s.state s.write_queue s.writing

-- A write that fails stays at the front of the queue.
breaks-Keeps :
    (s : IpaSession) (before : List Output) (f : Bytes) (fs : List Bytes)
    → in_flight before ≡ f ∷ fs
    → IsOrdered s before
    → IsOrdered s (before ++ broken f ∷ [])
unfolding queued_of started_of completed_of broken_of unfinished
breaks-Keeps s before f fs flies h =
    append-IsOrdered (broken f ∷ []) h h.busy (simp append-nil) (simp append-nil)
      (rw flies (append_assoc (broken_of before) (f ∷ []) fs ∙ (rw flies at h.at_front)))

stops-Keeps :
    (s : IpaSession) (o : Output)
    → IsStop o
    → Keeps IsOrdered s (o ∷ []) (record s { state = stopped })
unfolding queued_of started_of completed_of broken_of unfinished
stops-Keeps s o (inl e) =
    Keeps-quiet s _ (o ∷ []) refl refl (rw e (refl, refl, refl, refl, λ fs. refl))
stops-Keeps s o (inr e) =
    Keeps-quiet s _ (o ∷ []) refl refl (rw e (refl, refl, refl, refl, λ fs. refl))

ordered : IsInvariant IsOrdered
unfolding new_session queued_of started_of completed_of broken_of unfinished
ordered = record {
  at_first = record { busy = refl; all_queued = refl; all_started = refl; at_front = refl };
  enqueues = enqueue-Keeps;
  writes = write_done-Keeps;
  breaks = breaks-Keeps;
  stops = stops-Keeps;
  decodes = λ s d out h. record {
    busy = h.busy;
    all_queued = h.all_queued;
    all_started = h.all_started;
    at_front = h.at_front;
  };
  readies = λ s. Keeps-quiet s _ (on_ready ∷ []) refl refl (refl, refl, refl, refl, λ fs. refl);
  delivers = λ s payload h.
      Keeps-quiet s s (on_gsup payload ∷ []) refl refl (refl, refl, refl, refl, λ fs. refl);
  reads = λ s. Keeps-quiet s s (read_started ∷ []) refl refl (refl, refl, refl, refl, λ fs. refl);
}

-- After every history of a session, whatever is received, sent or fails: the frames that have
-- entered the queue are, in order, those whose writes have completed and those still in the queue;
-- the writes that were started are, in order, the completed ones and that of the front of the
-- queue; that one is under way or has failed, no other write is under way, and no other has
-- failed; and the session's flag of a running write is set exactly if the queue is not empty. So
-- two writes never overlap, and after a failed write no other is started.
pub History-IsOrdered : {s : IpaSession} {out : List Output} → History s out → IsOrdered s out
History-IsOrdered h = History-invariant ordered h

-- The writes that are under way or waiting complete, one after another.
unfoldable pub write_all : ℕ → IpaSession → Step
write_all zero s = ([], s)
write_all (suc n) s =
    let first = write_done s in let rest = write_all n first.1 in (first.0 ++ rest.0, rest.1)

module _ (d : Bytes) (st : State) where
  write_all_fields :
      (q : List Bytes)
      → let done = write_all (length q) (session d st q (nonempty q)) in
        (started_of done.0 ≡ drop 1 q) × (done.1 ≡ session d st [] false)
  unfolding write_all write_done do_write session started_of
  write_all_fields [] = (refl, refl)
  write_all_fields (g ∷ []) = (refl, refl)
  write_all_fields (g ∷ f ∷ q) =
      let (started, after) = write_all_fields (f ∷ q) in (ap (λ l. f ∷ l) started, after)

-- After every history, when as many writes complete as there are frames in the queue, then the
-- write of every frame behind the front is started, in order, and the queue is empty and idle at
-- the end: no frame is left behind. Nothing else of the session changes.
pub write_all-History :
    {s : IpaSession} {out : List Output}
    → History s out
    → let done = write_all (length s.write_queue) s in
      (started_of done.0 ≡ drop 1 s.write_queue)
      × (done.1 ≡ record s { write_queue = []; writing = false })
unfolding session
write_all-History {s} h =
    rw (← (History-IsOrdered h).busy) at (write_all_fields s.decoder s.state s.write_queue)
