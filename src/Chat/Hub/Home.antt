-- ===== src/Chat/Hub/Home.antt =====
-- A server is always on its own ring, whatever it hears of the others.
mod Quiet
pub mod Reached
use websocket_challenge.Base.{
  ℕ, ◌≡◌, ◌<◌, ◌≢◌, ◌∙◌, sym, ap, subst, refl, Bool, true, false, ◌||◌, Option, none, some, List,
  [], ◌∷◌, arith, Bool-cases, Option-cases, inl, inr, if◌then◌else◌, Text, ◌≟◌, Dict, lookup,
  insert, erase, lookup-insert, lookup-erase, text_dec, All-insert, All-erase, cut_prefix, All, ite,
  ℕ_discrete, codes, ◌++◌,
}
use websocket_challenge.Messages.{Message, Payload, unmarshal}
use websocket_challenge.Hashing.{Ring, new_consistent_hashing, add, get, remove}
use websocket_challenge.Hashing.Members.{CollisionFree, Represents}
use websocket_challenge.Hashing.Members.Calls.{add-Represents, remove-Represents}
use websocket_challenge.Hashing.Members.Agreement.{new-Represents, Represents-live}
use websocket_challenge.Chat.Hub.State.{Client, Hub, Result, ok, command, subscribe, global_signals}
use websocket_challenge.Chat.Hub.Cluster.{
  join_prefix, leave_prefix, announce_server_add, server_joined, server_left, act_on, handle_signal,
  prune, handle_tick, subscribe_all, is_silent, is_ack, kick_sender, ingest,
}
use websocket_challenge.Chat.Hub.Invariant.{IsHub}
use websocket_challenge.Hashing.Restore.{first_hash}
use websocket_challenge.Chat.Hub.Runs.{
  new_hub, Step, accepts, broadcasts, sends, reads, hears, ticks, Reach, here, next, Reach-IsHub,
  new_hub-IsHub,
}
use websocket_challenge.Chat.Hub.Home.Quiet.{
  kick_sender-SameRing, ingest-SameRing, SameRing, SameRing-refl, send_broadcast-SameRing,
  handle_broadcast-SameRing,
}
use websocket_challenge.Chat.Hub.Runs.Parts.{ok-injective, IsHub-of_rest}

module _ (hash : Text → ℕ) where
  -- `NewHub`: the ring of 50 virtual nodes a server has the server itself, which is announced.
  unfoldable pub start_hub : Text → Bool → (ℕ → Client) → Hub
  start_hub server_id redis_online client =
      announce_server_add
        (new_hub server_id redis_online (add hash server_id (new_consistent_hashing 50)).0 client)

  -- The servers that a payload announces are known.
  abbrev pub IsKnown : (Text → Bool) → Option Text → Type 0
  IsKnown known none = Unit
  IsKnown known (some id) = known id ≡ true

  -- What a step hears, which names known servers if it is of a join or of a leave.
  abbrev pub IsHeard : (Text → Bool) → {h h' : Hub} → Step hash h h' → Type 0
  IsHeard known (hears now (some p) e) =
      IsKnown known (cut_prefix (unmarshal p).content join_prefix)
      × IsKnown known (cut_prefix (unmarshal p).content leave_prefix)
  IsHeard known _ = Unit

  abbrev pub AllHeard : (Text → Bool) → {h h' : Hub} → Reach hash h h' → Type 0
  AllHeard known here = Unit
  AllHeard known (next r s) = AllHeard known r × IsHeard known s

  -- A server that the watcher may take off the ring: a known one, and another.
  abbrev pub IsOther : (Text → Bool) → Text → Text × ℕ → Type 0
  IsOther known own entry = (known entry.0 ≡ true) × (entry.0 ≢ own)

  -- The ring holds exactly the servers that are alive, of which the server itself is one, and the
  -- times that are kept are those of others.
  pub record IsHome (known : Text → Bool) (own : Text) (h : Hub) : Type 0 where
    pub alive : Text → Bool
    pub holds : Represents hash 50 known alive h.ring
    pub name : h.server_id ≡ own
    pub itself : alive own ≡ true
    pub watched : All (IsOther known own) h.last_seen

  pub IsHome-of_SameRing :
      (known : Text → Bool) (own : Text) (h h' : Hub)
      → SameRing h h'
      → IsHome known own h
      → IsHome known own h'
  IsHome-of_SameRing known own h h' s v = record {
    alive = v.alive;
    holds = subst (λ r. Represents hash 50 known v.alive r) (sym s.ring) v.holds;
    name = s.server_id ∙ v.name;
    itself = v.itself;
    watched = subst (All (IsOther known own)) (sym s.last_seen) v.watched;
  }

  pub IsHome-of_fields :
      (known : Text → Bool) (own : Text) (h h' : Hub)
      → h'.ring ≡ h.ring
      → h'.last_seen ≡ h.last_seen
      → h'.server_id ≡ h.server_id
      → IsHome known own h
      → IsHome known own h'
  IsHome-of_fields known own h h' e l n =
      IsHome-of_SameRing known own h h' (record { ring = e; last_seen = l; server_id = n })

  module _ (known : Text → Bool) (own : Text) (free : CollisionFree hash 50 known) where
    server_joined-IsHome :
        (now : ℕ) (id : Text) (h : Hub)
        → known id ≡ true
        → id ≢ own
        → IsHome known own h
        → IsHome known own (server_joined hash now id h)
    unfolding server_joined announce_server_add
    server_joined-IsHome now id h k ne v =
        let w = add-Represents hash 50 known v.alive free (omega arith) h.ring v.holds id k in
        elim (Bool-cases (add hash id h.ring).1) [
          | inl added ↦ rw added (record {
            alive = λ u. u ≟ id || v.alive u;
            holds = w;
            name = v.name;
            itself = ground (arith, v.itself);
            watched = All-insert text_dec (IsOther known own) id now h.last_seen (k, ne) v.watched;
          })
          | inr refused ↦ rw refused (record {
            alive = λ u. u ≟ id || v.alive u;
            holds = w;
            name = v.name;
            itself = ground (arith, v.itself);
            watched = v.watched;
          })
        ]

    server_left-IsHome :
        (id : Text) (h : Hub)
        → known id ≡ true
        → id ≢ own
        → IsHome known own h
        → IsHome known own (server_left hash id h)
    unfolding server_left
    server_left-IsHome id h k ne v = record {
      alive = λ u. if u ≟ id then false else v.alive u;
      holds = remove-Represents hash 50 known v.alive free (omega arith) h.ring v.holds id k;
      name = v.name;
      itself = ground (arith, v.itself, ne);
      watched = v.watched;
    }

    prune-IsHome :
        (now : ℕ) (d : Dict Text ℕ) (h : Hub)
        → All (IsOther known own) d
        → IsHome known own h
        → IsHome known own (prune hash now d h)
    unfolding prune
    prune-IsHome now [] h a v = v
    prune-IsHome now ((server, last) ∷ rest) h a v = elim (Bool-cases (is_silent now last)) [
      | inr recent ↦ rw (recent, prune) (prune-IsHome now rest h a.1 v)
      | inl old ↦
          rw (old, prune)
            (prune-IsHome now rest _ a.1 (record {
              alive = λ u. if u ≟ server then false else v.alive u;
              holds =
                  remove-Represents hash 50 known v.alive free (omega arith) h.ring v.holds server
                    a.0.0;
              name = v.name;
              itself = ground (arith, v.itself, a.0.1);
              watched = All-erase text_dec (IsOther known own) server h.last_seen v.watched;
            }))
    ]

    subscribe_all-same :
        (d : Dict Text Bool) (h : Hub)
        → IsHome known own h
        → IsHome known own (subscribe_all hash d h)
    unfolding subscribe_all
    subscribe_all-same [] h v = v
    subscribe_all-same ((room_id, b) ∷ rest) h v =
        subscribe_all-same rest (command (subscribe room_id) h)
          (IsHome-of_fields known own h _ refl refl refl v)

    pub act_on-IsHome :
        (now : ℕ) (joined left : Option Text) (m : Message) (h h' : Hub)
        → IsKnown known joined
        → IsKnown known left
        → act_on hash now joined left m h ≡ ok h'
        → IsHome known own h
        → IsHome known own h'
    unfolding act_on
    act_on-IsHome now (some id) left m h h' k l e v = elim (text_dec id own) [
      | yes same ↦ subst (IsHome known own) (ok-injective h h' (ground (arith, e, same, v.name))) v
      | no ne ↦
          subst (IsHome known own) (ok-injective _ h' (ground (arith, e, ne, v.name)))
            (server_joined-IsHome now id h k ne v)
    ]
    act_on-IsHome now none (some id) m h h' k l e v = elim (text_dec id own) [
      | yes same ↦ subst (IsHome known own) (ok-injective h h' (ground (arith, e, same, v.name))) v
      | no ne ↦
          subst (IsHome known own)
            (ok-injective (server_left hash id h) h' (ground (arith, e, ne, v.name)))
            (server_left-IsHome id h l ne v)
    ]
    act_on-IsHome now none none m h h' k l e v = elim (Bool-cases (is_ack m.kind)) [
      | inl a ↦
          subst (IsHome known own)
            (ok-injective (kick_sender (lookup text_dec m.sender h.all_clients) h) h'
              (ground (arith, e, a)))
            (IsHome-of_SameRing known own h _ (kick_sender-SameRing _ h) v)
      | inr b ↦ IsHome-of_SameRing known own h h' (ingest-SameRing m h h' (ground (arith, e, b))) v
    ]

    pub handle_tick-IsHome :
        (now : ℕ) (reached : Bool) (h : Hub)
        → IsHome known own h
        → IsHome known own (handle_tick hash now reached h)
    unfolding handle_tick announce_server_add
    handle_tick-IsHome now false h v =
        IsHome-of_SameRing known own h _
          (record { ring = ground arith; last_seen = ground arith; server_id = ground arith }) v
    handle_tick-IsHome now true h v = elim (Bool-cases h.redis_online) [
      | inl on ↦ rw on (
          prune-IsHome now h.last_seen _ v.watched
            (IsHome-of_fields known own h _ refl refl refl v))
      | inr off ↦
          rw off
            (subscribe_all-same h.active_subs _ (IsHome-of_fields known own h _ refl refl refl v))
    ]
