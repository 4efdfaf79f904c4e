-- ===== src/Card/Pace.antt =====
-- When compactCardStreamer calls UpdateCard: the distance between calls, the last text that Close
-- leaves, and the silence of a streamer that is closed or has failed.
use memknow.Common.{
  ℕ, ◌-◌, ◌+◌, ◌≤◌, ◌≡◌, refl, ◌∙◌, if_cases, ◌⊎◌, inl, inr, Bool, true, false, ◌||◌, ◌&&◌, not,
  List, [], ◌∷◌, Option, some, none, Text, arith, length, text_eq, text_eq_iff, is_empty, if_keeps,
  ltb,
}
use native.Mathlib.Decide.{ℕ_discrete}
use memknow.Card.Calls.{Method, progress, timer, finish, step, run}
use memknow.Card.Delivery.{SameCalls, record_kind-SameCalls, render_cong, render-ne-empty}
use memknow.Card.Streamer.{
  Streamer, ProgressEvent, Call, render, send, is_dead, publish, record_event, on_progress,
  flush_pending_debounced, close, close_pending, close_render, stop_debounce_flush,
  schedule_debounce_flush, should_force_flush, is_text, too_early,
}

-- Between `s` and `t` nothing was sent, or one text was sent at `now`, not earlier than
-- `min_interval` behind the last text that was accepted.
pub Paced : Streamer → ℕ → Streamer → Type 0
Paced s now t =
    (t.calls ≡ s.calls)
    ⊎ ((c : Call) × (t.calls ≡ c ∷ s.calls)
        × (c.at ≡ now)
        × ((last : ℕ) → s.last_sent_at ≡ some last → s.min_interval ≤ now - last))

same-Paced : (s t : Streamer) (now : ℕ) → t.calls ≡ s.calls → Paced s now t
unfolding Paced
same-Paced s t now e = inl e

calls-schedule :
    (s : Streamer) (delay now : ℕ) → (schedule_debounce_flush s delay now).calls ≡ s.calls
unfolding schedule_debounce_flush
calls-schedule s delay now = ground arith

not_early :
    (s : Streamer) (now last : ℕ)
    → too_early s now ≡ false
    → s.last_sent_at ≡ some last
    → s.min_interval ≤ now - last
unfolding too_early
not_early s now last h e = ground arith

-- Neither the end of the run nor an event that is sent at once: a tool event, or a text with a
-- line break.
abbrev pub IsUnforced : Method → Type 0
IsUnforced (progress cancelled e) = should_force_flush e ≡ false
IsUnforced timer = Unit {0}
IsUnforced finish = ⊥

module _ (updates : ℕ → Bool) where
  pub calls-send :
      (s : Streamer) (t : Text) (now : ℕ)
      → (send updates s t now).calls
        ≡ record { content = t; at = now; delivered = updates (length s.calls) } ∷ s.calls
  unfolding send
  calls-send s t now = ground arith

  send-Paced :
      (s u : Streamer) (t : Text) (now : ℕ)
      → u.calls ≡ s.calls
      → u.last_sent_at ≡ s.last_sent_at
      → u.min_interval ≡ s.min_interval
      → too_early u now ≡ false
      → Paced s now (send updates u t now)
  unfolding Paced
  send-Paced s u t now c l i h = inr (
    record { content = t; at = now; delivered = updates (length u.calls) },
    cc (calls-send u t now, c),
    refl,
    λ last e. rw (← i) (not_early u now last h (l ∙ e)),
  )

  publish-Paced :
      (s u : Streamer) (e : ProgressEvent) (now : ℕ)
      → SameCalls s u
      → should_force_flush e ≡ false
      → Paced s now (publish updates u e now)
  unfolding publish stop_debounce_flush too_early
  publish-Paced s u e now v h =
      let quiet : Streamer = record u { flush_timer = none; pending = [] } in
      let held : Streamer = record u { pending = render u } in
      if_cases (Paced s now) (is_empty (render u) || text_eq (render u) u.last_sent) _ _
        (λ _. same-Paced s u now v.same_calls)
        (λ _.
          if_cases (Paced s now)
            (is_text e.kind && not (should_force_flush e) && ltb 0 u.debounce_delay) _ _
            (λ _. same-Paced s _ now (calls-schedule held u.debounce_delay now ∙ v.same_calls))
            (λ _.
              if_cases (Paced s now) (too_early u now && not (should_force_flush e)) _ _
                (λ _. same-Paced s (record held { flush_timer = none }) now v.same_calls)
                (λ early.
                  send-Paced s quiet (render u) now v.same_calls v.same_at v.same_interval
                    (ground arith))))

  flush-Paced : (s : Streamer) (now : ℕ) → Paced s now (flush_pending_debounced updates s now)
  unfolding flush_pending_debounced schedule_debounce_flush stop_debounce_flush too_early
  flush-Paced s now =
      let u : Streamer = record s { flush_timer = none } in
      if_cases (Paced s now) (is_dead u) _ _ (λ _. same-Paced s _ now refl)
        (λ _.
          if_cases (Paced s now) (is_empty s.pending || text_eq s.pending s.last_sent) _ _
            (λ _. same-Paced s _ now refl)
            (λ _.
              if_cases (Paced s now) (too_early u now) _ _ (λ _. same-Paced s _ now (ground arith))
                (λ early. send-Paced s _ s.pending now refl refl refl early)))

  -- A call of OnProgress with an event that forces nothing, and the timer's call, send one text at
  -- most; they send none within `minInterval` of the last text that was accepted.
  pub step-Paced :
      (table : ℕ → ℕ) (decode : Text → Option (List (Text × Text))) (s : Streamer) (now : ℕ)
      (m : Method)
      → IsUnforced m
      → Paced s now (step updates table decode s (now, m))
  unfolding step on_progress record_event
  step-Paced table decode s now (progress cancelled e) h =
      if_keeps (Paced s now) cancelled _ _ (same-Paced s s now refl) (
        if_keeps (Paced s now) (is_dead s) _ _ (same-Paced s s now refl)
          (publish-Paced s _ e now (record_kind-SameCalls table decode e.kind s e) h))
  step-Paced table decode s now timer h = flush-Paced s now
  step-Paced table decode s now finish h = absurd h

  -- A dead streamer stays as it is, but for the timer that has gone off.
  is_dead-silent :
      (table : ℕ → ℕ) (decode : Text → Option (List (Text × Text))) (s : Streamer) (m : ℕ × Method)
      → is_dead s ≡ true
      → let t = step updates table decode s m in (t.calls ≡ s.calls) × (is_dead t ≡ true)
  unfolding step on_progress flush_pending_debounced close stop_debounce_flush is_dead
  is_dead-silent table decode s (now, progress c e) d = ground arith
  is_dead-silent table decode s (now, timer) d = ground arith
  is_dead-silent table decode s (now, finish) d = ground arith

  -- A streamer that is closed, has failed or has no card sends nothing more, whatever is called.
  pub run_dead :
      (table : ℕ → ℕ) (decode : Text → Option (List (Text × Text))) (s : Streamer)
      (ms : List (ℕ × Method))
      → is_dead s ≡ true
      → (run updates table decode s ms).calls ≡ s.calls
  unfolding run
  run_dead table decode s [] d = refl
  run_dead table decode s (m ∷ ms) d =
      let (same, dead) = is_dead-silent table decode s m d in
      run_dead table decode (step updates table decode s m) ms dead ∙ same

  close_pending_cases :
      (s : Streamer) (now : ℕ)
      → updates (length s.calls) ≡ true
      → let t = close_pending updates s now in
        (t.entries ≡ s.entries)
        × (t.answer ≡ s.answer)
        × (length t.calls ≤ length s.calls + 1)
        × (length s.calls ≤ length t.calls)
  unfolding close_pending send
  close_pending_cases s now ok = ground arith

  close_pending_next :
      (s t : Streamer)
      → updates (length s.calls) ≡ true
      → updates (length s.calls + 1) ≡ true
      → length t.calls ≤ length s.calls + 1
      → length s.calls ≤ length t.calls
      → updates (length t.calls) ≡ true
  close_pending_next s t ok ok' h h' = elim (ℕ_discrete (length t.calls) (length s.calls)) [
    | yes e ↦ rw e ok
    | no ne ↦ let e : length t.calls ≡ length s.calls + 1 = omega arith in rw e ok'
  ]

  close_pending-closed : (s : Streamer) (now : ℕ) → (close_pending updates s now).closed ≡ s.closed
  unfolding close_pending send
  close_pending-closed s now = ground arith

  close_render-closed : (s : Streamer) (now : ℕ) → (close_render updates s now).closed ≡ s.closed
  unfolding close_render send
  close_render-closed s now = ground arith

  close_render_last :
      (s : Streamer) (now : ℕ)
      → updates (length s.calls) ≡ true
      → (close_render updates s now).last_sent ≡ render s
  unfolding close_render send
  close_render_last s now ok = ground (arith, text_eq_iff (render s) s.last_sent, render-ne-empty s)

  -- When a live streamer is closed and UpdateCard accepts the calls (two at most), the card shows
  -- all that the streamer has recorded, and the streamer is closed.
  pub close-last_sent :
      (s : Streamer) (now : ℕ)
      → is_dead s ≡ false
      → updates (length s.calls) ≡ true
      → updates (length s.calls + 1) ≡ true
      → ((close updates s now).last_sent ≡ render s) × ((close updates s now).closed ≡ true)
  unfolding close stop_debounce_flush
  close-last_sent s now d ok ok' =
      let begun : Streamer = record s { closed = true; flush_timer = none } in
      let held = close_pending_cases begun now ok in
      let t : Streamer = close_pending updates begun now in
      let next : updates (length t.calls) ≡ true = close_pending_next s t ok ok' held.2 held.3 in
      rw d (
        close_render_last t now next ∙ render_cong t s held.0 held.1,
        close_render-closed t now ∙ close_pending-closed begun now,
      )
