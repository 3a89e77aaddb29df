-- ===== src/Framing/Delivery.antt =====
-- Frames that are sent one behind another come out whole and in order, however the connection cuts
-- the stream into pieces.
use gsup_map_proxy.Base.{
  ◌+◌, ◌<◌, ◌≡◌, refl, sym, ap, ◌∙◌, ◌⊎◌, inl, inr, List, [], ◌∷◌, ◌++◌, length, ok, arith,
  length-append, append_assoc, append-nil, All,
}
use gsup_map_proxy.Buffer.{Bytes}
use gsup_map_proxy.Framing.{
  Next, need_more, frame, cons_frame, append_frames, drain_all, deliver, continue_with,
}
use gsup_map_proxy.Framing.Laws.{Takes, drain_all_waits, drain_all_keeps, drain_all_step}

-- What a decoder promises on the frames that satisfy `IsGood` and have the bytes `wire`.
pub record IsFramed {ℓ κ} {F : Type ℓ} (next : Bytes → Next F × Bytes) (IsGood : F → Type κ)
    (wire : F → Bytes) : Type (ℓ ⊔ κ) where
  pub takes : Takes next
  pub whole : (f : F) (rest : Bytes) → IsGood f → next (wire f ++ rest) ≡ (frame f, rest)
  pub unfinished :
      (f : F) (p q : Bytes)
      → IsGood f
      → p ++ q ≡ wire f
      → length p < length (wire f)
      → next p ≡ (need_more, p)
  pub waits_at_end : next [] ≡ (need_more, [])

unfoldable pub concat : List Bytes → Bytes
concat [] = []
concat (b ∷ bs) = b ++ concat bs

module _ {ℓ} {F : Type ℓ} (next : Bytes → Next F × Bytes) where
  deliver_step :
      (buf piece : Bytes) (pieces : List Bytes) {fs : List F} {rest : Bytes}
      → drain_all next (buf ++ piece) ≡ record { frames = fs; raised = ok tt; left = rest }
      → deliver next buf (piece ∷ pieces) ≡ append_frames fs (deliver next rest pieces)
  unfolding deliver
  deliver_step buf piece pieces e = ap (continue_with (λ left. deliver next left pieces)) e

  blocked_from :
      (buf : Bytes) (pieces : List Bytes)
      → ((more : Bytes) → next (buf ++ more) ≡ (need_more, buf ++ more))
      → deliver next buf pieces
        ≡ record { frames = []; raised = ok tt; left = buf ++ concat pieces }
  unfolding deliver concat
  blocked_from buf [] h =
      ap (λ l. record { frames = []; raised = ok tt; left = l }) (sym (append-nil buf))
  blocked_from buf (piece ∷ pieces) h =
      deliver_step buf piece pieces (drain_all_keeps next (buf ++ piece) (h piece))
      ∙ blocked_from (buf ++ piece) pieces (λ more.
        ap next (append_assoc buf piece more)
        ∙ h (piece ++ more)
        ∙ ap (λ b. (need_more, b)) (sym (append_assoc buf piece more)))
      ∙ ap (λ l. record { frames = []; raised = ok tt; left = l })
          (append_assoc buf piece (concat pieces))

  -- A buffer that no further bytes can complete blocks the connection.
  pub deliver_blocked :
      (first : Bytes) (pieces : List Bytes)
      → ((more : Bytes) → next (first ++ more) ≡ (need_more, first ++ more))
      → deliver next [] (first ∷ pieces)
        ≡ record { frames = []; raised = ok tt; left = concat (first ∷ pieces) }
  unfolding concat
  deliver_blocked first pieces h =
      let alone =
        ap next (sym (append-nil first)) ∙ h [] ∙ ap (λ b. (need_more, b)) (append-nil first) in
      deliver_step [] first pieces (drain_all_keeps next first alone) ∙ blocked_from first pieces h

-- Where the cut of `w ++ v` into `p` and `q` falls: inside `w`, or behind it.
abbrev Cut : (p q w v : Bytes) → Type 0
Cut p q w v =
    ((more : Bytes) × (p ++ more ≡ w) × (length p < length w))
    ⊎ ((p' : Bytes) × (p ≡ w ++ p') × (p' ++ q ≡ v))

Cut-append : (p q w v : Bytes) → p ++ q ≡ w ++ v → Cut p q w v
Cut-append [] q [] v e = inr ([], refl, e)
Cut-append [] q (x ∷ w) v e = inl (x ∷ w, refl, omega arith)
Cut-append (a ∷ p) q [] v e = inr (a ∷ p, refl, e)
Cut-append (a ∷ p) q (x ∷ w) v e = elim (Cut-append p q w v (cc e)) [
  | inl (more, same, shorter) ↦ inl (more, cc (same, e), omega (arith, shorter))
  | inr (p', same, rest) ↦ inr (p', cc (same, e), rest)
]

module _ {ℓ κ} {F : Type ℓ} {next : Bytes → Next F × Bytes} {IsGood : F → Type κ} {wire : F → Bytes}
    (laws : IsFramed next IsGood wire) where
  -- The bytes of the frames, one behind another.
  unfoldable pub wires : List F → Bytes
  wires [] = []
  wires (f ∷ fs) = wire f ++ wires fs

  -- A buffer that holds at most the beginning of the next frame.
  abbrev pub IsBeginning : Bytes → List F → Type 0
  IsBeginning p [] = p ≡ []
  IsBeginning p (f ∷ fs) = length p < length (wire f)

  pub drain_all-wires :
      (fs : List F) (rest : Bytes)
      → All IsGood fs
      → (next rest).0 ≡ need_more
      → drain_all next (wires fs ++ rest)
        ≡ record { frames = fs; raised = ok tt; left = (next rest).1 }
  unfolding wires
  drain_all-wires [] rest h e = drain_all_waits next rest e
  drain_all-wires (f ∷ fs) rest h e =
      let one = laws.whole f (wires fs ++ rest) h.0 in
      rw (append_assoc (wire f) (wires fs) rest) (
        drain_all_step next laws.takes _ f (ap (λ p. p.0) one)
        ∙ ap (cons_frame f) (ap (λ p. drain_all next (p.1)) one ∙ drain_all-wires fs rest h.1 e))

  -- What the read loop makes of the first part `p` of the frames `fs`: the frames `done`, and the
  -- beginning `left` of the frames `todo`.
  record Progress (fs : List F) (p q : Bytes) : Type (ℓ ⊔ κ) where
    done : List F
    todo : List F
    left : Bytes
    all : fs ≡ done ++ todo
    good : All IsGood todo
    drained : drain_all next p ≡ record { frames = done; raised = ok tt; left = left }
    beginning : IsBeginning left todo
    remaining : left ++ q ≡ wires todo

  progress : (fs : List F) (p q : Bytes) → All IsGood fs → p ++ q ≡ wires fs → Progress fs p q
  unfolding wires
  progress [] [] q h e = record {
    done = [];
    todo = [];
    left = [];
    all = refl;
    good = tt;
    drained = drain_all_keeps next [] laws.waits_at_end;
    beginning = refl;
    remaining = e;
  }
  progress [] (a ∷ p) q h e = cc
  progress (f ∷ fs) p q h e = elim (Cut-append p q (wire f) (wires fs) e) [
    | inl (more, same, shorter) ↦
        let waits = laws.unfinished f p more h.0 same shorter in
        record {
          done = [];
          todo = f ∷ fs;
          left = p;
          all = refl;
          good = h;
          drained = drain_all_keeps next p waits;
          beginning = shorter;
          remaining = e;
        }
    | inr (p', same, rest) ↦
        let more = progress fs p' q h.1 rest in
        let one = laws.whole f p' h.0 in
        record {
          done = f ∷ more.done;
          todo = more.todo;
          left = more.left;
          all = ap (λ gs. f ∷ gs) more.all;
          good = more.good;
          drained = rw same (
              drain_all_step next laws.takes _ f (ap (λ r. r.0) one)
              ∙ ap (cons_frame f) (ap (λ r. drain_all next (r.1)) one ∙ more.drained));
          beginning = more.beginning;
          remaining = more.remaining;
        }
  ]

  deliver_from :
      (fs : List F) (buf : Bytes) (pieces : List Bytes)
      → All IsGood fs
      → IsBeginning buf fs
      → buf ++ concat pieces ≡ wires fs
      → deliver next buf pieces ≡ record { frames = fs; raised = ok tt; left = [] }
  unfolding deliver concat wires
  deliver_from [] buf [] h b e = ap (λ l. record { frames = []; raised = ok tt; left = l }) b
  deliver_from (f ∷ fs) buf [] h b e = absurd (omega (arith, too_short, b))
    where
      too_short : length buf ≡ length (wire f) + length (wires fs)
      too_short = ap length (sym (append-nil buf) ∙ e) ∙ length-append (wire f) (wires fs)
  deliver_from fs buf (piece ∷ pieces) h b e =
      let step = progress fs (buf ++ piece) (concat pieces) h (append_assoc buf piece _ ∙ e) in
      let rest = deliver_from step.todo step.left pieces step.good step.beginning step.remaining in
      deliver_step next buf piece pieces step.drained
      ∙ ap (append_frames step.done) rest
      ∙ ap (λ l. record { frames = l; raised = ok tt; left = [] }) (sym step.all)

  -- The generic form of what both decoders do.
  pub deliver-wires :
      (fs : List F) (pieces : List Bytes)
      → All IsGood fs
      → concat pieces ≡ wires fs
      → deliver next [] pieces ≡ record { frames = fs; raised = ok tt; left = [] }
  deliver-wires [] pieces h e = deliver_from [] [] pieces h refl e
  deliver-wires (f ∷ fs) pieces h e = deliver_from (f ∷ fs) [] pieces h nonempty e
    where
      nonempty : 0 < length (wire f)
      nonempty =
          let one = laws.whole f [] h.0 in
          let shorter = laws.takes (wire f ++ []) f (ap (λ r. r.0) one) in
          omega (arith, rw one at shorter, length-append (wire f) [])
