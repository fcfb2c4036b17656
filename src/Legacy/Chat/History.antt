-- ===== src/Legacy/Chat/History.antt =====
-- The history that legacy/challenge-7/chat.go replays to a client that joins, and what becomes of
-- a session whose name is taken by another.
pub mod Newest
use websocket_challenge.Base.{
  ℕ, ◌+◌, ◌≤◌, ◌≡◌, refl, sym, ap, ◌∙◌, inl, inr, suc, ◌++◌, append-nil, All, subst, append_assoc,
  Bool, true, false, Bool-cases, List, [], ◌∷◌, length, length-append, keep, ltb, ◌==◌, ==_iff,
  if◌then◌else◌, Text, Dict, arith,
}
use websocket_challenge.Legacy.Chat.{
  Message, MessageType, chat, system, user_list, private, other, Hub, Result, ok, ◌>>=◌, send,
  offer, send_history, offer_all, remember, deliver, handle_broadcast, set_client,
}
use websocket_challenge.Legacy.Chat.History.Newest.{
  newest, newest_short, length-newest-le, newest-append, remember-newest,
}

abbrev pub is_chat : MessageType → Bool
is_chat chat = true
is_chat _ = false

-- The messages that go to the whole room.
abbrev pub is_public : MessageType → Bool
is_public chat = true
is_public system = true
is_public user_list = true
is_public _ = false

-- `Run` takes these messages from `broadcast` one after the other.
unfoldable pub handle_broadcasts : List Message → Hub → Result
unfolding handle_broadcast
handle_broadcasts [] h = ok h
handle_broadcasts (m ∷ ms) h = handle_broadcast m h >>= handle_broadcasts ms

-- No session has a closed channel, and none is the client `c`.
abbrev pub AllOpen : Dict Text ℕ → ℕ → Hub → Type 0
AllOpen [] c h = Unit
AllOpen ((_, d) ∷ rest) c h = ((h.client d).closed ≡ false) × ((d == c) ≡ false) × AllOpen rest c h

-- What offers leave as it is.
record Offered (c : ℕ) (h g : Hub) : Type 0 where
  same : g.client c ≡ h.client c
  closed : (d : ℕ) → (g.client d).closed ≡ (h.client d).closed
  clients : g.clients ≡ h.clients
  history : g.history ≡ h.history

offer_lem :
    (m : Message) (c d : ℕ) (h : Hub)
    → (h.client d).closed ≡ false
    → (d == c) ≡ false
    → (g : Hub) × (offer m d h ≡ ok g) × Offered c h g
unfolding offer
offer_lem m c d h opened differ = elim (Bool-cases (ltb (length (h.client d).send) 256)) [
  | inl space ↦
      rw (opened, space)
        (
          _,
          refl,
          record {
            same = ground (arith, differ, ==_iff d c, ==_iff c d);
            closed = λ e. ground (arith, ==_iff e d, opened);
            clients = refl;
            history = refl;
          },
        )
  | inr full ↦
      rw (opened, full)
        (_, refl, record { same = refl; closed = λ e. refl; clients = refl; history = refl })
]

AllOpen-frame :
    (cs : Dict Text ℕ) (c : ℕ) (h g : Hub)
    → ((d : ℕ) → (g.client d).closed ≡ (h.client d).closed)
    → AllOpen cs c h
    → AllOpen cs c g
AllOpen-frame [] c h g e o = tt
AllOpen-frame ((_, d) ∷ rest) c h g e o = (e d ∙ o.0, o.1, AllOpen-frame rest c h g e o.2)

offer_all_lem :
    (m : Message) (c : ℕ) (cs : Dict Text ℕ) (h : Hub)
    → AllOpen cs c h
    → (g : Hub) × (offer_all m cs h ≡ ok g) × Offered c h g
unfolding offer_all
offer_all_lem m c [] h o =
    (h, refl, record { same = refl; closed = λ d. refl; clients = refl; history = refl })
offer_all_lem m c ((_, d) ∷ rest) h o =
    let (h₁, e₁, s₁) = offer_lem m c d h o.0 o.1 in
    let (g, e₂, s₂) = offer_all_lem m c rest h₁ (AllOpen-frame rest c h h₁ s₁.closed o.2) in
    (
      g,
      ap (λ r. r >>= offer_all m rest) e₁ ∙ e₂,
      record {
        same = s₂.same ∙ s₁.same;
        closed = λ d. s₂.closed d ∙ s₁.closed d;
        clients = s₂.clients ∙ s₁.clients;
        history = s₂.history ∙ s₁.history;
      },
    )

-- What the public messages `sent` leave behind, while `c` is no session.
pub record Heard (c : ℕ) (sent : List Message) (h g : Hub) : Type 0 where
  pub same : g.client c ≡ h.client c
  pub opened : AllOpen g.clients c g
  pub clients : g.clients ≡ h.clients
  pub history : g.history ≡ newest 20 (h.history ++ sent)

abbrev pub chats : List Message → List Message
chats ms = keep (λ (m : Message). is_chat m.kind) ms

Offered-Heard :
    (c : ℕ) (h g : Hub)
    → AllOpen h.clients c h
    → length h.history ≤ 20
    → Offered c h g
    → Heard c [] h g
Offered-Heard c h g o le s = record {
  same = s.same;
  opened = subst (λ cs. AllOpen cs c g) (sym s.clients) (AllOpen-frame h.clients c h g s.closed o);
  clients = s.clients;
  history =
      s.history ∙ sym (newest_short 20 h.history le) ∙ ap (newest 20) (sym (append-nil h.history));
}

deliver_public :
    (k : MessageType) (m : Message) (c : ℕ) (h : Hub)
    → is_public k ≡ true
    → AllOpen h.clients c h
    → length h.history ≤ 20
    → (g : Hub) × (deliver k m h ≡ ok g) × Heard c (if is_chat k then m ∷ [] else []) h g
unfolding deliver
deliver_public chat m c h public o le =
    let (g, e, s) = offer_all_lem m c h.clients h o in
    (
      record g { history = remember m g.history },
      ap (λ r. r >>= λ x. ok (record x { history = remember m x.history })) e,
      record {
        same = s.same;
        opened =
            AllOpen-frame g.clients c g (record g { history = remember m g.history }) (λ d. refl)
              (Offered-Heard c h g o le s).opened;
        clients = s.clients;
        history = ap (remember m) s.history ∙ remember-newest m h.history le;
      },
    )
deliver_public system m c h public o le =
    let (g, e, s) = offer_all_lem m c h.clients h o in (g, e, Offered-Heard c h g o le s)
deliver_public user_list m c h public o le =
    let (g, e, s) = offer_all_lem m c h.clients h o in (g, e, Offered-Heard c h g o le s)
deliver_public private m c h public o le = cc
deliver_public (other t) m c h public o le = cc

newest-chats :
    (xs : List Message) (m : Message) (ms : List Message)
    → newest 20 (newest 20 (xs ++ (if is_chat m.kind then m ∷ [] else [])) ++ chats ms)
      ≡ newest 20 (xs ++ chats (m ∷ ms))
newest-chats xs m ms = elim (Bool-cases (is_chat m.kind)) [
  | inl listed ↦ rw listed (
      newest-append 20 (xs ++ m ∷ []) (chats ms)
      ∙ ap (newest 20) (append_assoc xs (m ∷ []) (chats ms)))
  | inr unlisted ↦ rw (unlisted, append-nil xs) (newest-append 20 xs (chats ms))
]

pub handle_broadcasts_lem :
    (ms : List Message) (c : ℕ) (h : Hub)
    → All (λ m. is_public m.kind ≡ true) ms
    → AllOpen h.clients c h
    → length h.history ≤ 20
    → (g : Hub) × (handle_broadcasts ms h ≡ ok g) × Heard c (chats ms) h g
unfolding handle_broadcasts handle_broadcast
handle_broadcasts_lem [] c h public o le = (
  h,
  refl,
  record {
    same = refl;
    opened = o;
    clients = refl;
    history = sym (newest_short 20 h.history le) ∙ ap (newest 20) (sym (append-nil h.history));
  },
)
handle_broadcasts_lem (m ∷ ms) c h public o le =
    let (h₁, e₁, s₁) = deliver_public m.kind m c h public.0 o le in
    let (g, e₂, s₂) = handle_broadcasts_lem ms c h₁ public.1 s₁.opened (
      rw s₁.history (length-newest-le 20 (h.history ++ (if is_chat m.kind then m ∷ [] else [])))) in
    (
      g,
      ap (λ r. r >>= handle_broadcasts ms) e₁ ∙ e₂,
      record {
        same = s₂.same ∙ s₁.same;
        opened = s₂.opened;
        clients = s₂.clients ∙ s₁.clients;
        history =
            s₂.history
            ∙ ap (λ xs. newest 20 (xs ++ chats ms)) s₁.history
            ∙ newest-chats h.history m ms;
      },
    )

-- A channel with room for all of them takes the messages `ms`.
pub record Replayed (ms : List Message) (c : ℕ) (h g : Hub) : Type 0 where
  pub client :
      (d : ℕ)
      → g.client d
        ≡ (if d == c then record (h.client c) { send = (h.client c).send ++ ms } else h.client d)
  pub clients : g.clients ≡ h.clients
  pub history : g.history ≡ h.history

pub send_history_lem :
    (ms : List Message) (c : ℕ) (h : Hub)
    → (h.client c).closed ≡ false
    → length (h.client c).send + length ms ≤ 256
    → (g : Hub) × (send_history ms c h ≡ ok g) × Replayed ms c h g
unfolding send_history send
send_history_lem [] c h opened space = (
  h,
  refl,
  record {
    client = λ d. ground (arith, append-nil (h.client c).send, ==_iff d c);
    clients = refl;
    history = refl;
  },
)
send_history_lem (m ∷ ms) c h opened space =
    let cl = h.client c in
    let h₁ = set_client c (record cl { send = cl.send ++ m ∷ [] }) h in
    let e₁ : send m c h ≡ ok h₁ = ground (arith, opened, space) in
    let (g, e, s) =
      send_history_lem ms c h₁ (ground (arith, opened))
        (ground (arith, space, length-append cl.send (m ∷ []))) in
    (
      g,
      ap (λ r. r >>= send_history ms c) e₁ ∙ e,
      record {
        client = λ d. ground (arith, s.client d, append_assoc cl.send (m ∷ []) ms, ==_iff d c);
        clients = s.clients;
        history = s.history;
      },
    )
