-- ===== src/Chat/Hub/Home/Reached.antt =====
-- Every step from the hub of `NewHub` keeps the server on its own ring.
use websocket_challenge.Base.{
  ℕ, ◌≡◌, subst, refl, Bool, true, false, ◌||◌, none, some, arith, Text, ◌≟◌, lookup, ℕ_discrete,
  codes, ◌++◌,
}
use websocket_challenge.Messages.{unmarshal}
use websocket_challenge.Hashing.{new_consistent_hashing, add, get}
use websocket_challenge.Hashing.Members.{CollisionFree}
use websocket_challenge.Hashing.Members.Calls.{add-Represents}
use websocket_challenge.Hashing.Members.Agreement.{new-Represents, Represents-live}
use websocket_challenge.Chat.Hub.State.{Client, Hub}
use websocket_challenge.Chat.Hub.Cluster.{announce_server_add, handle_signal}
use websocket_challenge.Chat.Hub.Invariant.{IsHub}
use websocket_challenge.Hashing.Restore.{first_hash}
use websocket_challenge.Chat.Hub.Sessions.{close_client}
use websocket_challenge.Chat.Hub.Runs.{
  new_hub, after_unlock, Step, accepts, enters, locks, issues, closes, manages, broadcasts, takes,
  delivers, sends, reads, stores, hears, ticks, Reach, here, next, Reach-IsHub, new_hub-IsHub,
}
use websocket_challenge.Chat.Hub.Home.Quiet.{
  after_lock-SameRing, enter-SameRing, manage_subscription-SameRing, deliver-SameRing,
  send_broadcast-SameRing, handle_broadcast-SameRing,
}
use websocket_challenge.Chat.Hub.Runs.Parts.{ok-injective, IsHub-of_rest}
use websocket_challenge.Chat.Hub.Home.{
  start_hub, IsHeard, AllHeard, IsHome, IsHome-of_SameRing, IsHome-of_fields, act_on-IsHome,
  handle_tick-IsHome,
}

module _ (hash : Text → ℕ) where
  module _ (known : Text → Bool) (own : Text) (free : CollisionFree hash 50 known) where
    start_hub-IsHome :
        (online : Bool) (client : ℕ → Client)
        → known own ≡ true
        → IsHome hash known own (start_hub hash own online client)
    unfolding start_hub new_hub announce_server_add
    start_hub-IsHome online client k = record {
      alive = λ u. u ≟ own || false;
      holds =
          add-Represents hash 50 known _ free (omega arith) _
            (new-Represents hash 50 known free (omega arith)) own k;
      name = refl;
      itself = ground arith;
      watched = tt;
    }

    Step-IsHome :
        {h h' : Hub} (s : Step hash h h')
        → IsHeard hash known s
        → IsHub h
        → IsHome hash known own h
        → IsHome hash known own h'
    unfolding handle_signal after_unlock close_client
    Step-IsHome {h} {h'} (accepts c cl old e) k u v =
        rw e (IsHome-of_fields hash known own h _ refl refl refl v)
    Step-IsHome {h} {h'} (enters now c up free e) k u v =
        rw e (IsHome-of_SameRing hash known own h _ (enter-SameRing now c h) v)
    Step-IsHome {h} {h'} (locks c up e) k u v =
        rw e (IsHome-of_SameRing hash known own h _ (after_lock-SameRing c h) v)
    Step-IsHome {h} {h'} (issues x e) k u v =
        rw e (IsHome-of_fields hash known own h _ refl refl refl v)
    Step-IsHome {h} {h'} (closes c old e) k u v =
        rw e (IsHome-of_fields hash known own h _ refl refl refl v)
    Step-IsHome {h} {h'} (manages room_id e) k u v =
        rw e (IsHome-of_SameRing hash known own h _ (manage_subscription-SameRing room_id h) v)
    Step-IsHome {h} {h'} (takes m rest q b e) k u v =
        rw e (IsHome-of_fields hash known own h _ refl refl refl v)
    Step-IsHome {h} {h'} (delivers p c e) k u v =
        IsHome-of_SameRing hash known own h h' (deliver-SameRing p c h h' e) v
    Step-IsHome {h} {h'} (stores m rest q e) k u v =
        rw e (IsHome-of_fields hash known own h _ refl refl refl v)
    Step-IsHome {h} {h'} (broadcasts published m rest q b e) k u v =
        IsHome-of_SameRing hash known own (record h { broadcast = rest }) h'
          (handle_broadcast-SameRing published m (record h { broadcast = rest }) h'
            (IsHub-of_rest h _ u refl refl refl refl) e)
          (IsHome-of_fields hash known own h _ refl refl refl v)
    Step-IsHome {h} {h'} (sends m e) k u v =
        IsHome-of_SameRing hash known own h h' (send_broadcast-SameRing m h h' e) v
    Step-IsHome {h} {h'} (reads c frames e) k u v =
        rw e (IsHome-of_fields hash known own h _ refl refl refl v)
    Step-IsHome {h} {h'} (hears now none e) k u v =
        subst (IsHome hash known own) (ok-injective h h' e) v
    Step-IsHome {h} {h'} (hears now (some p) e) k u v =
        act_on-IsHome hash known own free now _ _ (unmarshal p) h h' k.0 k.1 e v
    Step-IsHome {h} {h'} (ticks now reached e) k u v =
        rw e (handle_tick-IsHome hash known own free now reached h v)

    Reach-IsHome :
        {h h' : Hub} (r : Reach hash h h')
        → AllHeard hash known r
        → IsHub h
        → IsHome hash known own h
        → IsHome hash known own h'
    Reach-IsHome here k u v = v
    Reach-IsHome (next r s) k u v =
        Step-IsHome s k.1 (Reach-IsHub hash u r) (Reach-IsHome r k.0 u v)

    start_hub-IsHub :
        (online : Bool) (client : ℕ → Client) → IsHub (start_hub hash own online client)
    unfolding start_hub announce_server_add
    start_hub-IsHub online client =
        IsHub-of_rest _ _
          (new_hub-IsHub hash own online (add hash own (new_consistent_hashing 50)).0 client) refl
          refl refl refl

    -- From the hub that `NewHub` makes, whatever clients do and whatever servers it hears of, as
    -- long as all are known and no two virtual nodes of known servers have one hash, every step
    -- leads to a hub that has its own name on its ring, and in which every key is routed to a known
    -- server.
    pub server_stays_home :
        (online : Bool) (client : ℕ → Client) (key : Text) (h : Hub)
        → known own ≡ true
        → (r : Reach hash (start_hub hash own online client) h) → AllHeard hash known r
        → (h.server_id ≡ own)
          × (lookup ℕ_discrete (hash (own ++ codes "#0")) h.ring.registry ≡ some own)
          × (known (get hash key h.ring) ≡ true)
    server_stays_home online client key h k r heard =
        let v =
          Reach-IsHome r heard (start_hub-IsHub online client) (start_hub-IsHome online client k) in
        (
          v.name,
          v.holds.complete _ own v.itself (first_hash hash own 50 (omega arith)),
          v.holds.all_known _ (
              Represents-live hash 50 known free (omega arith) v.alive h.ring key own v.holds
                v.itself),
        )
