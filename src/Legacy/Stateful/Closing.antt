-- ===== src/Legacy/Stateful/Closing.antt =====
-- Each channel of legacy/challenge-1/stateful-hub.go is closed once, and for each client that goes.
use websocket_challenge.Base.{
  ℕ, ◌≡◌, refl, ap, ◌∙◌, Bool, true, false, not, ◌&&◌, ◌||◌, Bool-cases, inl, inr, some, List, [],
  ◌∷◌, length, contains, contains-append, IsNodup, append-IsNodup, keep, ltb, ◌==◌, ==_iff, Text,
  arith,
}
use websocket_challenge.Legacy.Stateful.{
  Hub, ◌>>=◌, new_hub, close_send, drop_client, handle_register, handle_unregister, offer,
  offer_all, handle_broadcast, write_pump, Event, registers, unregisters, writes, broadcasts, step,
  run, registered,
}

-- The channels that are closed are those of the clients seen so far that are in the room no more.
record IsTidy (seen : ℕ → Bool) (h : Hub) : Type 0 where
  closed : (d : ℕ) → (h.client d).closed ≡ (seen d && not (contains h.clients d))
  known : (d : ℕ) → contains h.clients d ≡ true → seen d ≡ true
  distinct : IsNodup h.clients

contains-keep :
    (c d : ℕ) (cs : List ℕ)
    → contains (keep (λ e. not (e == c)) cs) d ≡ (contains cs d && not (d == c))
contains-keep c d [] = refl
contains-keep c d (e ∷ cs) =
    ground (arith, contains-keep c d cs, ==_iff e c, ==_iff d c, ==_iff d e)

keep-IsNodup : (c : ℕ) (cs : List ℕ) → IsNodup cs → IsNodup (keep (λ e. not (e == c)) cs)
keep-IsNodup c [] u = tt
keep-IsNodup c (e ∷ cs) u = ground (arith, keep-IsNodup c cs u.1, contains-keep c e cs, u.0)

drop_client-IsTidy :
    (seen : ℕ → Bool) (c : ℕ) (h : Hub)
    → IsTidy seen h
    → contains h.clients c ≡ true
    → (g : Hub) × (drop_client c h ≡ some g)
      × IsTidy seen g
      × (g.clients ≡ keep (λ e. not (e == c)) h.clients)
unfolding drop_client close_send
drop_client-IsTidy seen c h v held =
    let opened : (h.client c).closed ≡ false = ground (arith, v.closed c, held) in
    rw opened (
      _,
      refl,
      record {
        closed = λ d.
            ground (arith, v.closed d, v.known c, held, contains-keep c d h.clients, ==_iff d c);
        known = λ d. ground (arith, v.known d, contains-keep c d h.clients);
        distinct = keep-IsNodup c h.clients v.distinct;
      },
      refl,
    )

-- Only `c` may leave the room.
record Kept (c : ℕ) (h g : Hub) : Type 0 where
  others : (d : ℕ) → (d == c) ≡ false → contains g.clients d ≡ contains h.clients d

offer_full :
    (m : Text) (c : ℕ) (h : Hub)
    → (h.client c).closed ≡ false
    → ltb (length (h.client c).send) 256 ≡ false
    → offer m c h ≡ drop_client c h
unfolding offer
offer_full m c h opened full = ground (arith, opened, full)

offer-IsTidy :
    (seen : ℕ → Bool) (m : Text) (c : ℕ) (h : Hub)
    → IsTidy seen h
    → contains h.clients c ≡ true
    → (g : Hub) × (offer m c h ≡ some g) × IsTidy seen g × Kept c h g
unfolding offer
offer-IsTidy seen m c h v held =
    let opened : (h.client c).closed ≡ false = ground (arith, v.closed c, held) in
    elim (Bool-cases (ltb (length (h.client c).send) 256)) [
      | inl space ↦
          rw (opened, space)
            (
              _,
              refl,
              record {
                closed = λ d. ground (arith, v.closed d, ==_iff d c, opened);
                known = v.known;
                distinct = v.distinct;
              },
              record { others = λ d differ. refl },
            )
      | inr full ↦
          let (g, e, tidy, same) = drop_client-IsTidy seen c h v held in
          (
            g,
            offer_full m c h opened full ∙ e,
            tidy,
            record {
              others = λ d differ.
                  ap (λ cs. contains cs d) same
                  ∙ contains-keep c d h.clients
                  ∙ ground (arith, differ);
            },
          )
    ]

offer_all-IsTidy :
    (seen : ℕ → Bool) (m : Text) (cs : List ℕ) (h : Hub)
    → IsTidy seen h
    → IsNodup cs
    → ((d : ℕ) → contains cs d ≡ true → contains h.clients d ≡ true)
    → (g : Hub) × (offer_all m cs h ≡ some g) × IsTidy seen g
unfolding offer_all
offer_all-IsTidy seen m [] h v u held = (h, refl, v)
offer_all-IsTidy seen m (c ∷ cs) h v u held =
    let (h₁, e₁, v₁, kept) = offer-IsTidy seen m c h v (held c (ground (arith, ==_iff c c))) in
    let (g, e₂, v₂) = offer_all-IsTidy seen m cs h₁ v₁ u.1 (λ d listed.
      kept.others d (ground (arith, listed, u.0, ==_iff d c)) ∙ held d (ground (arith, listed))) in
    (g, ap (λ r. r >>= offer_all m cs) e₁ ∙ e₂, v₂)

step-IsTidy :
    (seen : ℕ → Bool) (e : Event) (h : Hub)
    → IsTidy seen h
    → IsNodup (registered (e ∷ []))
    → ((d : ℕ) → contains (registered (e ∷ [])) d ≡ true → seen d ≡ false)
    → (g : Hub) × (step e h ≡ some g) × IsTidy (λ d. contains (registered (e ∷ [])) d || seen d) g
unfolding step handle_register handle_unregister handle_broadcast write_pump
step-IsTidy seen (registers c) h v u fresh =
    let new : seen c ≡ false = fresh c (ground (arith, ==_iff c c)) in
    let absent : contains h.clients c ≡ false = ground (arith, v.known c, new) in
    (
      handle_register c h,
      refl,
      record {
        closed = λ d.
            ground
              (arith, v.closed d, new, contains-append h.clients (c ∷ []) d, ==_iff d c, absent);
        known = λ d. ground (arith, v.known d, contains-append h.clients (c ∷ []) d, ==_iff d c);
        distinct = rw absent (append-IsNodup h.clients c absent v.distinct);
      },
    )
step-IsTidy seen (unregisters c) h v u fresh = elim (Bool-cases (contains h.clients c)) [
  | inl held ↦
      let (g, e, tidy, _) = drop_client-IsTidy seen c h v held in (g, ground (arith, held, e), tidy)
  | inr absent ↦ (h, rw absent refl, v)
]
step-IsTidy seen (writes c) h v u fresh = (
  _,
  refl,
  record {
    closed = λ d. ground (arith, v.closed d, ==_iff d c);
    known = v.known;
    distinct = v.distinct;
  },
)
step-IsTidy seen (broadcasts m) h v u fresh =
    offer_all-IsTidy seen m h.clients h v v.distinct (λ d held. held)

-- Each event registers one client at most, which comes before those of the later events.
registered-cons :
    (e : Event) (es : List Event) (d : ℕ)
    → contains (registered (e ∷ es)) d
      ≡ (contains (registered (e ∷ [])) d || contains (registered es) d)
registered-cons (registers c) es d = ground arith
registered-cons (unregisters c) es d = refl
registered-cons (writes c) es d = refl
registered-cons (broadcasts m) es d = refl

registered-IsNodup :
    (e : Event) (es : List Event)
    → IsNodup (registered (e ∷ es))
    → IsNodup (registered (e ∷ []))
      × IsNodup (registered es)
      × ((d : ℕ) → contains (registered es) d ≡ true → contains (registered (e ∷ [])) d ≡ false)
registered-IsNodup (registers c) es u =
    ((refl, tt), u.1, λ d listed. ground (arith, listed, u.0, ==_iff d c))
registered-IsNodup (unregisters c) es u = (tt, u, λ d listed. refl)
registered-IsNodup (writes c) es u = (tt, u, λ d listed. refl)
registered-IsNodup (broadcasts m) es u = (tt, u, λ d listed. refl)

run-IsTidy :
    (seen : ℕ → Bool) (es : List Event) (h : Hub)
    → IsTidy seen h
    → IsNodup (registered es)
    → ((d : ℕ) → contains (registered es) d ≡ true → seen d ≡ false)
    → (g : Hub) × (run es h ≡ some g) × IsTidy (λ d. contains (registered es) d || seen d) g
unfolding run
run-IsTidy seen [] h v u fresh = (h, refl, v)
run-IsTidy seen (e ∷ es) h v u fresh =
    let (first, later, apart) = registered-IsNodup e es u in
    let (h₁, e₁, v₁) =
      step-IsTidy seen e h v first
        (λ d listed. fresh d (registered-cons e es d ∙ ground (arith, listed))) in
    let (g, e₂, v₂) =
      run-IsTidy (λ d. contains (registered (e ∷ [])) d || seen d) es h₁ v₁ later
        (λ d listed.
          ground
            (arith, apart d listed, fresh d (registered-cons e es d ∙ ground (arith, listed)))) in
    (
      g,
      ap (λ r. r >>= run es) e₁ ∙ e₂,
      record {
        closed = λ d. ground (arith, v₂.closed d, registered-cons e es d);
        known = λ d. ground (arith, v₂.known d, registered-cons e es d);
        distinct = v₂.distinct;
      },
    )

-- However registers, unregisters, broadcasts and writes follow one another, as long as no client is
-- registered twice, the hub never sends to or closes a closed channel; and at the end the closed
-- channels are exactly those of the clients that were registered and are in the room no more.
pub run-closes :
    (es : List Event)
    → IsNodup (registered es)
    → (g : Hub) × (run es new_hub ≡ some g)
      × ((d : ℕ) → (g.client d).closed ≡ (contains (registered es) d && not (contains g.clients d)))
unfolding new_hub
run-closes es u =
    let (g, e, v) =
      run-IsTidy (λ d. false) es new_hub
        (record { closed = λ d. refl; known = λ d listed. cc; distinct = tt }) u
        (λ d listed. refl) in
    (g, e, λ d. ground (arith, v.closed d))
