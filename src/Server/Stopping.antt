-- ===== src/Server/Stopping.antt =====
-- The end of `main` of cmd/server/main.go: its wait group, and the goroutines that it waits for.
use websocket_challenge.Base.{
  ℕ, subst, ap, sym, inl, inr, Option-cases, ◌+◌, ◌-◌, ◌≡◌, ◌≢◌, ◌∙◌, refl, Bool, true, false, ◌&&◌,
  Option, none, some, List, [], ◌∷◌, arith, ◌==◌, if◌then◌else◌,
}

-- `main` serves until a signal comes, waits at `wg.Wait`, and goes on to close the pools.
pub data Phase : Type 0 where
  serving awaiting finished : Phase

-- The counter of the wait group, the channels `Quit`, `PersistenceQueue` and that of the
-- subscription, and which of the goroutines that were counted still run: `Run`, the writer to the
-- database, the listener, the watcher, and the one that serves requests.
pub record Process : Type 0 where
  pub phase : Phase
  pub count : ℕ
  pub quit_closed : Bool
  pub pub_sub_closed : Bool
  pub queue_closed : Bool
  pub hub : Bool
  pub worker : Bool
  pub listener : Bool
  pub watcher : Bool
  pub http : Bool

-- `wg.Add(3)` of `NewHub`, and `wg.Add(1)` twice in `main`.
unfoldable pub launched : Process
launched = record {
  phase = serving;
  count = 3 + 1 + 1;
  quit_closed = false;
  pub_sub_closed = false;
  queue_closed = false;
  hub = true;
  worker = true;
  listener = true;
  watcher = true;
  http = true;
}

-- What may happen next: a signal comes, a goroutine returns, or `wg.Wait` does. A failure to
-- listen, which ends the process at once, is left out.
pub data Event : Type 0 where
  interrupt hub_returns worker_returns listener_returns watcher_returns http_returns : Event
  wait_returns : Event

abbrev pub is_serving : Phase → Bool
is_serving serving = true
is_serving awaiting = false
is_serving finished = false

abbrev pub is_awaiting : Phase → Bool
is_awaiting serving = false
is_awaiting awaiting = true
is_awaiting finished = false

abbrev pub is_finished : Phase → Bool
is_finished serving = false
is_finished awaiting = false
is_finished finished = true

-- `wg.Done()`
abbrev pub done : Process → Process
done p = record p { count = p.count - 1 }

abbrev pub when : Bool → Process → Option Process
when possible p = if possible then some p else none

-- The effect of each event, where it can happen. `Run` and the watcher return when `Quit` is
-- closed, and `Run` closes the subscription; the listener and the writer return when their
-- channels are closed. The goroutine that serves requests returns without a call of `Done`.
unfoldable pub happen : Event → Process → Option Process
happen interrupt p = when (is_serving p.phase) (record p { phase = awaiting; quit_closed = true })
happen hub_returns p =
    when (p.hub && p.quit_closed) (done (record p { hub = false; pub_sub_closed = true }))
happen worker_returns p = when (p.worker && p.queue_closed) (done (record p { worker = false }))
happen listener_returns p =
    when (p.listener && p.pub_sub_closed) (done (record p { listener = false }))
happen watcher_returns p = when (p.watcher && p.quit_closed) (done (record p { watcher = false }))
happen http_returns p = when p.http (record p { http = false })
happen wait_returns p = when (is_awaiting p.phase && (p.count == 0)) (record p { phase = finished })

unfoldable pub pursue : List Event → Option Process → Option Process
pursue events none = none
pursue [] (some p) = some p
pursue (e ∷ events) (some p) = pursue events (happen e p)

abbrev pub one_if : Bool → ℕ
one_if b = if b then 1 else 0

-- The writer still runs and its channel is open; the counter is what the other goroutines leave.
pub record IsStuck (p : Process) : Type 0 where
  pub working : p.worker ≡ true
  pub open_queue : p.queue_closed ≡ false
  pub counted : p.count ≡ one_if p.hub + one_if p.listener + one_if p.watcher + 2
  pub unfinished : is_finished p.phase ≡ false

happen-IsStuck : (e : Event) (p q : Process) → IsStuck p → happen e p ≡ some q → IsStuck q
unfolding happen
happen-IsStuck interrupt p q v e = record {
  working = ground (arith, v.working, e, v.open_queue);
  open_queue = ground (arith, v.open_queue, e);
  counted = ground (arith, v.counted, e, v.working, v.open_queue);
  unfinished = ground (arith, v.unfinished, e, v.counted, v.working, v.open_queue);
}
happen-IsStuck hub_returns p q v e = record {
  working = ground (arith, v.working, e, v.open_queue);
  open_queue = ground (arith, v.open_queue, e);
  counted = ground (arith, v.counted, e, v.working, v.open_queue);
  unfinished = ground (arith, v.unfinished, e, v.counted, v.working, v.open_queue);
}
happen-IsStuck worker_returns p q v e = record {
  working = ground (arith, v.working, e, v.open_queue);
  open_queue = ground (arith, v.open_queue, e);
  counted = ground (arith, v.counted, e, v.working, v.open_queue);
  unfinished = ground (arith, v.unfinished, e, v.counted, v.working, v.open_queue);
}
happen-IsStuck listener_returns p q v e = record {
  working = ground (arith, v.working, e, v.open_queue);
  open_queue = ground (arith, v.open_queue, e);
  counted = ground (arith, v.counted, e, v.working, v.open_queue);
  unfinished = ground (arith, v.unfinished, e, v.counted, v.working, v.open_queue);
}
happen-IsStuck watcher_returns p q v e = record {
  working = ground (arith, v.working, e, v.open_queue);
  open_queue = ground (arith, v.open_queue, e);
  counted = ground (arith, v.counted, e, v.working, v.open_queue);
  unfinished = ground (arith, v.unfinished, e, v.counted, v.working, v.open_queue);
}
happen-IsStuck http_returns p q v e = record {
  working = ground (arith, v.working, e, v.open_queue);
  open_queue = ground (arith, v.open_queue, e);
  counted = ground (arith, v.counted, e, v.working, v.open_queue);
  unfinished = ground (arith, v.unfinished, e, v.counted, v.working, v.open_queue);
}
happen-IsStuck wait_returns p q v e = record {
  working = ground (arith, v.working, e, v.open_queue);
  open_queue = ground (arith, v.open_queue, e);
  counted = ground (arith, v.counted, e, v.working, v.open_queue);
  unfinished = ground (arith, v.unfinished, e, v.counted, v.working, v.open_queue);
}

some-injective : (p q : Process) → some p ≡ some q → p ≡ q
some-injective p q e = cc

pursue-none : (events : List Event) → pursue events none ≡ none
unfolding pursue
pursue-none [] = refl
pursue-none (x ∷ events) = refl

pursue-IsStuck :
    (events : List Event) (p q : Process) → IsStuck p → pursue events (some p) ≡ some q → IsStuck q
unfolding pursue
pursue-IsStuck [] p q v e = subst IsStuck (some-injective p q e) v
pursue-IsStuck (x ∷ events) p q v e = elim (Option-cases (happen x p)) [
  | inl h ↦ absurd (ground (arith, pursue-none events, sym e ∙ ap (pursue events) h))
  | inr (r, h) ↦
      pursue-IsStuck events r q (happen-IsStuck x p r v h) (sym (ap (pursue events) h) ∙ e)
]

launched-IsStuck : IsStuck launched
unfolding launched
launched-IsStuck = record { working = refl; open_queue = refl; counted = refl; unfinished = refl }

-- Whatever happens after the start, in whatever order, the writer to the database never returns and
-- `main` never gets past `wg.Wait`: the counter is 2 more than the number of `Run`, the listener
-- and the watcher that still run, so it does not come to 0, and the database's pool is never
-- closed.
pub shutdown-hangs :
    (events : List Event) (p : Process)
    → pursue events (some launched) ≡ some p
    → (p.phase ≢ finished)
      × (p.worker ≡ true)
      × (p.count ≡ one_if p.hub + one_if p.listener + one_if p.watcher + 2)
shutdown-hangs events p e =
    let v = pursue-IsStuck events launched p launched-IsStuck e in
    (λ f. ground (arith, v.unfinished, ap is_finished f), v.working, v.counted)
