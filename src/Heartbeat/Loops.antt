-- ===== src/Heartbeat/Loops.antt =====
-- The loops of the heartbeat over any sequence of Start, Stop and Restart.
use memknow.Common.{
  ℕ, zero, suc, ◌≡◌, refl, sym, ap, ◌∙◌, inl, inr, not, List, [], ◌∷◌, ◌++◌, map, Option, none,
  some, Text, arith, text_eq, lookup, insert, length, length-append, KeysDiffer, insert-KeysDiffer,
  All, All-insert, All-weaken, Permᴰ, append_assoc, Option-cases, Bool-cases, if_keeps,
}
use mathlib.Core.List.Permᴰ
use mathlib.Core.Option.{none-ne-some}
use memknow.Heartbeat.Service.{
  HeartbeatConfig, Loops, should_enable, start_app, start, cancel_all, stop, restart,
}

-- What is asked of the service, with the configuration and the apps at that time.
pub data Op : Type 0 where
  starts restarts : HeartbeatConfig → List Text → Op
  stops : Op

unfoldable pub perform : Loops → Op → Loops
unfolding start stop restart
perform s (Op.starts cfg apps) = start cfg apps s
perform s (Op.restarts cfg apps) = restart cfg apps s
perform s Op.stops = stop s

unfoldable pub perform_all : Loops → List Op → Loops
unfolding perform
perform_all s [] = s
perform_all s (o ∷ l) = perform_all (perform s o) l

abbrev pub fresh_loops : Loops
fresh_loops = record { loops = []; started = []; cancelled = [] }

-- The app for which a loop was started.
abbrev pub app_of : List Text → ℕ → Option Text
app_of [] n = none
app_of (a ∷ l) zero = some a
app_of (a ∷ l) (suc n) = app_of l n

-- The loops started, the newest first.
abbrev pub numbers : ℕ → List ℕ
numbers zero = []
numbers (suc n) = n ∷ numbers n

abbrev pub loop_of : Text × ℕ → ℕ
loop_of e = e.1

-- One loop for each app at most, which was started for that app; and each loop that was started
-- stands exactly once among the apps' loops and the cancelled ones.
pub record IsKept (s : Loops) : Type 0 where
  pub keys : KeysDiffer s.loops
  pub owners : All (λ (e : Text × ℕ). app_of s.started e.1 ≡ some e.0) s.loops
  pub accounted : Permᴰ (map loop_of s.loops ++ s.cancelled) (numbers (length s.started))

app_of-append :
    (l : List Text) (a b : Text) (n : ℕ) → app_of l n ≡ some b → app_of (l ++ a ∷ []) n ≡ some b
app_of-append [] a b n h = elim (none-ne-some b h) [ ]
app_of-append (c ∷ l) a b zero h = h
app_of-append (c ∷ l) a b (suc n) h = app_of-append l a b n h

app_of_newest : (l : List Text) (a : Text) → app_of (l ++ a ∷ []) (length l) ≡ some a
app_of_newest [] a = refl
app_of_newest (c ∷ l) a = app_of_newest l a

map-insert :
    (a : Text) (n : ℕ) (l : List (Text × ℕ))
    → lookup a l ≡ none
    → map loop_of (insert a n l) ≡ map loop_of l ++ n ∷ []
unfolding insert lookup
map-insert a n [] h = refl
map-insert a n ((b, m) ∷ l) h = elim (Bool-cases (text_eq b a)) [
  | inl e ↦ elim (none-ne-some m (sym (rw e at h))) [ ]
  | inr e ↦ rw e (ap (λ x. m ∷ x) (map-insert a n l (rw e at h)))
]

newest_accounted :
    (s : Loops) (a : Text)
    → lookup a s.loops ≡ none
    → IsKept s
    → Permᴰ
        (map loop_of (insert a (length s.started) s.loops) ++ s.cancelled)
        (numbers (length (s.started ++ a ∷ [])))
newest_accounted s a e h =
    let n = length s.started in
    let grown : length (s.started ++ a ∷ []) ≡ suc n =
      omega (arith, length-append s.started (a ∷ [])) in
    let moved : map loop_of (insert a n s.loops) ++ s.cancelled
        ≡ map loop_of s.loops ++ n ∷ s.cancelled =
      ap (λ x. x ++ s.cancelled) (map-insert a n s.loops e)
      ∙ append_assoc (map loop_of s.loops) (n ∷ []) s.cancelled in
    rw (moved, grown)
      (Permᴰ.trans (Permᴰ.middle n (map loop_of s.loops) s.cancelled) (Permᴰ.cons refl h.accounted))

start_app-IsKept :
    (cfg : HeartbeatConfig) (s : Loops) (a : Text) → IsKept s → IsKept (start_app cfg s a)
unfolding start_app
start_app-IsKept cfg s a h =
    if_keeps IsKept (not (should_enable cfg)) _ _ h (elim (Option-cases (lookup a s.loops)) [
      | inr (n, e) ↦ rw e h
      | inl e ↦ rw e (record {
        keys = insert-KeysDiffer a (length s.started) s.loops h.keys;
        owners =
            All-insert (λ (x : Text × ℕ). app_of (s.started ++ a ∷ []) x.1 ≡ some x.0) a
              (length s.started) s.loops (app_of_newest s.started a)
              (All-weaken (λ (x : Text × ℕ). app_of s.started x.1 ≡ some x.0)
                (λ x. app_of (s.started ++ a ∷ []) x.1 ≡ some x.0) s.loops
                (λ x found. app_of-append s.started a x.0 x.1 found) h.owners);
        accounted = newest_accounted s a e h;
      })
    ])

start-IsKept :
    (cfg : HeartbeatConfig) (apps : List Text) (s : Loops) → IsKept s → IsKept (start cfg apps s)
unfolding start
start-IsKept cfg [] s h = h
start-IsKept cfg (a ∷ apps) s h =
    start-IsKept cfg apps (start_app cfg s a) (start_app-IsKept cfg s a h)

cancel_all-perm :
    (l : List (Text × ℕ)) (out : List ℕ) → Permᴰ (cancel_all l out) (map loop_of l ++ out)
unfolding cancel_all
cancel_all-perm [] out = Permᴰ.refl out
cancel_all-perm ((a, n) ∷ l) out =
    Permᴰ.trans (cancel_all-perm l (n ∷ out)) (Permᴰ.middle n (map loop_of l) out)

stop-IsKept : (s : Loops) → IsKept s → IsKept (stop s)
unfolding stop
stop-IsKept s h = record {
  keys = tt;
  owners = tt;
  accounted = Permᴰ.trans (cancel_all-perm s.loops s.cancelled) h.accounted;
}

perform-IsKept : (s : Loops) (o : Op) → IsKept s → IsKept (perform s o)
unfolding perform restart
perform-IsKept s (Op.starts cfg apps) h = start-IsKept cfg apps s h
perform-IsKept s (Op.restarts cfg apps) h = start-IsKept cfg apps (stop s) (stop-IsKept s h)
perform-IsKept s Op.stops h = stop-IsKept s h

perform_all-keeps : (ops : List Op) (s : Loops) → IsKept s → IsKept (perform_all s ops)
unfolding perform_all
perform_all-keeps [] s h = h
perform_all-keeps (o ∷ ops) s h = perform_all-keeps ops (perform s o) (perform-IsKept s o h)

-- However often the service is started, stopped and restarted, with whatever configurations, each
-- app has at most one loop, which was started for it, and each loop that was ever started is either
-- the loop of one app or cancelled, and not both, nor cancelled twice: none goes on without an
-- owner, and none that an app owns is cancelled.
pub perform_all-IsKept : (ops : List Op) → IsKept (perform_all fresh_loops ops)
perform_all-IsKept ops =
    perform_all-keeps ops fresh_loops (record { keys = tt; owners = tt; accounted = Permᴰ.nil })
